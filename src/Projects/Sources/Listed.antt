-- ===== src/Projects/Sources/Listed.antt =====
-- What the list of sources holds.
use back_orbit.Base.{
  [], ◌∷◌, Option, none, some, true, false, ◌||◌, ◌≡◌, ◌≢◌, ◌↔◌, ◌⊎◌, refl, sym, ap, ◌∙◌, arith,
  All, Any, Bytes, Bool-cases, Option-cases, inl, inr, subst, codes,
}
use back_orbit.Base.Assoc.{Assoc, insert, lookup}
use back_orbit.Base.Paths.{clean, is_abs, slash}
use back_orbit.Base.Text.{bytes_beq, bytes_beq_iff, bytes_eq, ne_of_bytes_beq}
use back_orbit.BackupRun.{BackupSource, bind}
use back_orbit.BackupRun.Runner.{is_backupable}
use back_orbit.Projects.Sources.{
  Mount, MountType, bind_mount, cleaned_reason, is_kernel_path, new_source, note_use, or_new,
  other_mount, kernel_reason, skip_reason, table_reason, source_of, unbackupable_paths, used_by,
  volume_mount,
}

-- A path that may hold data: not the root, none of the listed system files and sockets, and not below
-- /proc, /sys or /dev.
pub record MayHoldData (path : Bytes) : Type 0 where
  pub below_root : clean path ≢ slash ∷ []
  pub unlisted : lookup (clean path) unbackupable_paths ≡ none
  pub no_kernel_path : is_kernel_path (clean path) ≡ false

module _ {V : Type 0} (P : Bytes × V → Type 0) where
  pub All-insert :
      (k : Bytes) (v : V) (m : Assoc Bytes V) → P (k, v) → All P m → All P (insert k v m)
  unfolding insert
  All-insert k v [] p h = (p, tt)
  All-insert k v ((j, w) ∷ m) p h = elim (Bool-cases (bytes_beq j k)) [
    | inl e ↦ rw e (p, h.1)
    | inr e ↦ rw e (h.0, All-insert k v m p h.1)
  ]

  All-lookup : (k : Bytes) (v : V) (m : Assoc Bytes V) → All P m → lookup k m ≡ some v → P (k, v)
  unfolding lookup
  All-lookup k v [] h e = ground (arith, e)
  All-lookup k v ((j, w) ∷ m) h e = elim (Bool-cases (bytes_beq j k)) [
    | inl same ↦
        let key : j ≡ k = (bytes_beq_iff j k).0 same in
        let value : w ≡ v = ground (arith, same, e) in
        subst (λ (i : Bytes). P (i, v)) key (subst (λ (u : V). P (j, u)) value h.0)
    | inr other ↦ All-lookup k v m h.1 (ground (arith, other, e))
  ]

abbrev pub HasName : Bytes → Assoc Bytes BackupSource → Type 0
HasName k m = Any (λ e. e.0 ≡ k) m

pub HasName-insert :
    (k j : Bytes) (v : BackupSource) (m : Assoc Bytes BackupSource)
    → HasName k (insert j v m) ↔ ((j ≡ k) ⊎ HasName k m)
unfolding insert
HasName-insert k j v [] = ((λ h. h), (λ h. h))
HasName-insert k j v ((i, w) ∷ m) = elim (Bool-cases (bytes_beq i j)) [
  | inl e ↦
      let same : i ≡ j = (bytes_beq_iff i j).0 e in
      rw e (
        λ h. elim h [ inl p ↦ inl p | inr q ↦ inr (inr q) ],
        λ h. elim h [
          | inl p ↦ inl p
          | inr q ↦ elim q [ inl p ↦ inl (sym same ∙ p) | inr r ↦ inr r ]
        ],
      )
  | inr e ↦
      let ih = HasName-insert k j v m in
      rw e (
        λ h. elim h [
          | inl p ↦ inr (inl p)
          | inr q ↦ elim (ih.0 q) [ inl p ↦ inl p | inr r ↦ inr (inr r) ]
        ],
        λ h. elim h [
          | inl p ↦ inr (ih.1 (inl p))
          | inr q ↦ elim q [ inl p ↦ inl p | inr r ↦ inr (ih.1 (inr r)) ]
        ],
      )
]

unfoldable pub IsSafe : BackupSource → Type 0
IsSafe s = s.kind ≡ bind → is_backupable s ≡ true → MayHoldData s.name

-- An entry stands under the name of its source.
abbrev pub IsEntry : Bytes × BackupSource → Type 0
IsEntry (k, s) = (s.name ≡ k) × IsSafe s

listed_reason : (path reason : Bytes) → lookup path unbackupable_paths ≡ some reason → reason ≢ []
listed_reason path reason h =
    All-lookup (λ e. e.1 ≢ []) path reason unbackupable_paths
      (
        (λ e. ground (arith, e)),
        (
          (λ e. ground (arith, e)),
          ((λ e. ground (arith, e)), ((λ e. ground (arith, e)), ((λ e. ground (arith, e)), tt))),
        ),
      )
      h

table_reason-empty :
    (o : Option Bytes) (path : Bytes)
    → ((reason : Bytes) → o ≡ some reason → reason ≢ [])
    → table_reason o path ≡ []
    → (o ≡ none) × (kernel_reason path ≡ [])
table_reason-empty none path h e = (refl, e)
table_reason-empty (some reason) path h e = elim (h reason refl e) [ ]

kernel_reason-empty : (path : Bytes) → kernel_reason path ≡ [] → is_kernel_path path ≡ false
kernel_reason-empty path e = elim (Bool-cases (is_kernel_path path)) [
  | inl kernel ↦ ground (arith, rw kernel at e)
  | inr other ↦ other
]

cleaned_reason-empty :
    (path destination : Bytes)
    → cleaned_reason path destination ≡ []
    → (path ≢ slash ∷ []) × (table_reason (lookup path unbackupable_paths) path ≡ [])
unfolding cleaned_reason
cleaned_reason-empty path destination h =
    elim (Bool-cases (
      bytes_beq destination (codes "/var/run/docker.sock")
      || bytes_beq destination (codes "/run/docker.sock"))) [
        | inl e ↦ ground (arith, rw e at h)
        | inr e ↦ elim (Bool-cases (bytes_beq path (slash ∷ []))) [
          | inl root ↦ ground (arith, rw (e, root) at h)
          | inr below ↦ (ne_of_bytes_beq path (slash ∷ []) below, rw (e, below) at h)
        ]
      ]

skip_reason-MayHoldData :
    (path destination : Bytes) → skip_reason path destination ≡ [] → MayHoldData path
skip_reason-MayHoldData path destination h =
    let (below, rest) = cleaned_reason-empty (clean path) (clean destination) h in
    let (unlisted, kernel) =
      table_reason-empty (lookup (clean path) unbackupable_paths) (clean path)
        (listed_reason (clean path)) rest in
    record {
      below_root = below;
      unlisted = unlisted;
      no_kernel_path = kernel_reason-empty (clean path) kernel;
    }

or_new-IsEntry :
    (new : BackupSource) (m : Assoc Bytes BackupSource)
    → IsSafe new
    → All IsEntry m
    → IsEntry (new.name, or_new (lookup new.name m) new)
or_new-IsEntry new m safe h = elim (Option-cases (lookup new.name m)) [
  | inl e ↦ rw e (refl, safe)
  | inr (s, e) ↦ rw e (All-lookup IsEntry new.name s m h e)
]

pub note_use-IsEntry :
    (new : BackupSource) (destination service : Bytes) (m : Assoc Bytes BackupSource)
    → IsSafe new
    → All IsEntry m
    → All IsEntry (note_use new destination service m)
unfolding note_use IsSafe
note_use-IsEntry new destination service m safe h =
    let found = or_new (lookup new.name m) new in
    let kept = or_new-IsEntry new m safe h in
    All-insert IsEntry new.name (used_by found destination service) m (kept.0, kept.1) h

pub source_of-IsSafe :
    (t : MountType) (mount : Mount) (new : BackupSource) → source_of t mount ≡ some new → IsSafe new
unfolding IsSafe
source_of-IsSafe volume_mount mount new h = λ kind. ground (arith, h, kind)
source_of-IsSafe bind_mount mount new h = λ _ kept. elim (Bool-cases (is_abs mount.source)) [
  | inl e ↦
      let same : new_source bind mount.source (skip_reason mount.source mount.destination) ≡ new =
        ground (arith, rw e at h) in
      let name : mount.source ≡ new.name = ap (λ (s : BackupSource). s.name) same in
      let reason : skip_reason mount.source mount.destination ≡ [] =
        ap (λ (s : BackupSource). s.skipped) same ∙ (bytes_beq_iff new.skipped []).0 kept in
      subst MayHoldData name (skip_reason-MayHoldData mount.source mount.destination reason)
  | inr e ↦ ground (arith, rw e at h)
]
source_of-IsSafe other_mount mount new h = ground (arith, h)
