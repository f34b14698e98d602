-- ===== src/Secrets/KeyFile.antt =====
-- internal/secrets/unattended.go: `UnlockFromFile`. What the file system answers is an argument:
-- the result of `os.Stat`, and in it what `os.ReadFile` then gives.
use Prim.Native.Nat.{bit_and}
use back_orbit.Base.{
  ℕ, ◌≤◌, ◌≡◌, refl, Bool, true, false, not, ◌||◌, Option, none, some, [], ◌++◌, arith, Bytes,
  trim_right, trim_space, ltb, ◌==◌, nat_eq, All, Result, ok, err, ◌>>=◌, ◌>>◌, guard, or_fail, ◌≢◌,
  ◌↔◌, ◌∷◌, ◌∙◌, ap, sym, inl, inr, Option-cases, Result-cases, map_err,
}
use back_orbit.Base.Text.{bytes_eq, bytes_beq_iff}
use back_orbit.Base.Text.Trim.{
  trim_right-append, trim_right-last, trim_right-snoc, trim_right-split,
}
use back_orbit.Crypto.{Primitives}
use back_orbit.Secrets.{Error, Env, Store}
use back_orbit.Secrets.Keys.{unlock}

pub record KeyFile : Type 0 where
  pub is_dir : Bool
  pub size : ℕ
  pub permissions : ℕ
  pub content : Option Bytes

pub data KeyFileError : Type 0 where
  no_key_file unreadable directory too_large shared empty : KeyFileError
  refused : Error → KeyFileError

abbrev pub max_key_file_size : ℕ
max_key_file_size = 4096

abbrev pub is_newline : ℕ → Bool
is_newline c = c == b'\r' || c == b'\n'

-- The tests of `UnlockFromFile` and `checkKeyFilePermissions`, and the passphrase.
unfoldable pub key_file_passphrase : Bytes → Option KeyFile → Result KeyFileError Bytes
key_file_passphrase path stat = do
  guard (not (trim_space path == [])) no_key_file
  file ← or_fail stat unreadable
  guard (not file.is_dir) directory
  guard (not (ltb max_key_file_size file.size)) too_large
  guard (bit_and file.permissions 0o077 == 0) shared
  content ← or_fail file.content unreadable
  guard (not (trim_right is_newline content == [])) empty
  ok (trim_right is_newline content)

-- A file that `UnlockFromFile` takes a passphrase from, by what `os.Stat` and `os.ReadFile` answer.
pub record IsKeyFile (path : Bytes) (stat : Option KeyFile) (passphrase : Bytes) : Type 0 where
  pub file : KeyFile
  pub start : Bytes
  pub last : ℕ
  pub newlines : Bytes
  pub named : trim_space path ≢ []
  pub answered : stat ≡ some file
  pub not_directory : file.is_dir ≡ false
  pub small : file.size ≤ max_key_file_size
  pub private : bit_and file.permissions 0o077 ≡ 0
  pub written : file.content ≡ some (passphrase ++ newlines)
  pub newlines_only : All (λ b. is_newline b ≡ true) newlines
  pub ends : passphrase ≡ start ++ (last ∷ [])
  pub proper : is_newline last ≡ false

snoc-nonempty : (start : Bytes) (last : ℕ) → start ++ (last ∷ []) ≢ []
snoc-nonempty [] last = cc
snoc-nonempty (x ∷ start) last = cc

key_file_passphrase-IsKeyFile :
    (path passphrase : Bytes) (stat : Option KeyFile)
    → key_file_passphrase path stat ≡ ok passphrase
    → IsKeyFile path stat passphrase
unfolding key_file_passphrase
key_file_passphrase-IsKeyFile path passphrase none h = absurd (ground arith)
key_file_passphrase-IsKeyFile path passphrase (some file) h = elim (Option-cases file.content) [
  | inl e ↦ absurd (ground (arith, e))
  | inr (content, e) ↦
      let kept : trim_right is_newline content ≡ passphrase = ground (arith, e) in
      let (newlines, only, whole) = trim_right-split is_newline content in
      elim (trim_right-last is_newline content) [
        | inl nothing ↦
            absurd (ground (arith, e, nothing, bytes_beq_iff (trim_right is_newline content) []))
        | inr (start, last, same, proper) ↦ record {
          file = file;
          start = start;
          last = last;
          newlines = newlines;
          named = ground (arith, bytes_beq_iff (trim_space path) []);
          answered = refl;
          not_directory = ground arith;
          small = ground arith;
          private = ground arith;
          written = rw (← kept) (e ∙ ap some whole);
          newlines_only = only;
          ends = rw (← kept) same;
          proper = proper;
        }
      ]
]

IsKeyFile-key_file_passphrase :
    (path passphrase : Bytes) (stat : Option KeyFile)
    → IsKeyFile path stat passphrase
    → key_file_passphrase path stat ≡ ok passphrase
unfolding key_file_passphrase
IsKeyFile-key_file_passphrase path passphrase stat k =
    let kept : trim_right is_newline (passphrase ++ k.newlines) ≡ passphrase =
      trim_right-append is_newline passphrase k.newlines k.newlines_only
      ∙ rw k.ends (trim_right-snoc is_newline k.start k.last k.proper) in
    let something : passphrase ≢ [] = λ z. snoc-nonempty k.start k.last (sym k.ends ∙ z) in
    ground (
      arith,
      k.answered,
      k.not_directory,
      k.small,
      k.private,
      k.written,
      kept,
      something,
      k.named,
      bytes_beq_iff (trim_space path) [],
      bytes_beq_iff passphrase [],
    )

module _ (c : Primitives) (digits : ℕ → Bytes) where
  passed_on : Result Error (Unit {0}) × Store → Result KeyFileError (Unit {0}) × Store
  passed_on (r, s) = (map_err refused r, s)

  unlock_with : Env → Store → Result KeyFileError Bytes → Result KeyFileError (Unit {0}) × Store
  unfolding passed_on
  unlock_with env s (err e) = (err e, s)
  unlock_with env s (ok passphrase) = passed_on (unlock c digits env passphrase s)

  unfoldable pub unlock_from_file :
      Env → Bytes → Option KeyFile → Store → Result KeyFileError (Unit {0}) × Store
  unfolding unlock_with
  unlock_from_file env path stat s = unlock_with env s (key_file_passphrase path stat)

  -- The content of a key file unlocks the store exactly if the path is not blank, the file is not a
  -- directory, has at most 4096 bytes and gives nobody but its owner a permission, by what `os.Stat`
  -- says of it, and holds a passphrase that `Unlock` accepts, followed by nothing but newlines. The
  -- state is then what `Unlock` makes of that passphrase.
  pub unlock_from_file-IsKeyFile :
      (env : Env) (path : Bytes) (stat : Option KeyFile) (s s' : Store)
      → (unlock_from_file env path stat s ≡ (ok tt, s')) ↔ (
          (passphrase : Bytes) × IsKeyFile path stat passphrase
          × (unlock c digits env passphrase s ≡ (ok tt, s')))
  unfolding unlock_from_file
  unlock_from_file-IsKeyFile env path stat s s' = (
    λ h. elim (Result-cases (key_file_passphrase path stat)) [
      | inr (e, bad) ↦ absurd (ground (arith, bad))
      | inl (passphrase, good) ↦ (
        passphrase,
        key_file_passphrase-IsKeyFile path passphrase stat good,
        ground (arith, good),
      )
    ],
    λ (passphrase, k, h). ground (arith, IsKeyFile-key_file_passphrase path passphrase stat k, h),
  )
