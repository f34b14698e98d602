-- ===== src/Blueprints/Catalog.antt =====
-- internal/protectionblueprints/catalog.go. What embed.FS and the YAML decoder answer for a file of
-- the catalog is an argument.
pub mod Loaded
use back_orbit.Base.{
  ℕ, ◌+◌, List, [], ◌∷◌, ◌++◌, Option, none, some, Bool, true, false, not, ◌&&◌, ◌||◌,
  if◌then◌else◌, leb, ltb, nat_beq, Bytes, codes, ◌==◌, length, Result, ok, err, ◌>>=◌, ◌>>◌, guard,
}
use back_orbit.Base.Text.{bytes_beq, bytes_eq, trim_space}
use back_orbit.Base.Times.{text_lt}
use back_orbit.Images.{contains, is_at, is_colon, last_segment}

pub record Metadata : Type 0 where
  pub id : Bytes
  pub name : Bytes
  pub version : Bytes
  pub category : Bytes
  pub upstream : Bytes
  pub tags : List Bytes

pub record Match : Type 0 where
  pub required_image_groups : List (List Bytes)
  pub optional_image_groups : List (List Bytes)
  pub required_technologies : List Bytes
  pub optional_technologies : List Bytes

pub record Plan : Type 0 where
  pub classification : Bytes
  pub consistency : Bytes
  pub required_data : List Bytes
  pub database_strategy : List Bytes
  pub include_hints : List Bytes
  pub exclude_hints : List Bytes
  pub warnings : List Bytes
  pub restore_checks : List Bytes

pub record Template : Type 0 where
  pub api_version : Bytes
  pub kind : Bytes
  pub metadata : Metadata
  pub match : Match
  pub plan : Plan

pub record Document : Type 0 where
  pub schema_version : ℕ
  pub templates : List Template

pub data CatalogError : Type 0 where
  list_failed : CatalogError
  open_failed : CatalogError
  decode_failed : CatalogError
  close_failed : CatalogError
  unsupported_schema : ℕ → CatalogError
  unsupported_version : Bytes → CatalogError
  empty_group : Bytes → CatalogError
  invalid_pattern : Bytes → CatalogError
  no_required_image : Bytes → CatalogError
  duplicate_id : Bytes → CatalogError
  invalid_metadata : CatalogError
  tagged_pattern : Bytes → Bytes → CatalogError

abbrev pub catalog_schema_version : ℕ
catalog_schema_version = 1

abbrev id_byte : ℕ → Bool
id_byte c = leb b'a' c && leb c b'z' || leb b'0' c && leb c b'9' || nat_beq c b'-'

unfoldable pub all_bytes : (ℕ → Bool) → Bytes → Bool
all_bytes p [] = true
all_bytes p (c ∷ cs) = let rest = all_bytes p cs in p c && rest

-- `validID`
unfoldable pub valid_id : Bytes → Bool
valid_id value = not (value == []) && leb (length value) 80 && all_bytes id_byte value

abbrev pub is_blank : ℕ → Bool
is_blank c = nat_beq c b' ' || nat_beq c b'\t' || nat_beq c b'\r' || nat_beq c b'\n'

abbrev pub is_tag_byte : ℕ → Bool
is_tag_byte c = nat_beq c b':' || nat_beq c b'@'

unfoldable pub validate_pattern : Bytes → Bytes → Result CatalogError (Unit {0})
validate_pattern id pattern = do
  guard (not (trim_space pattern == [] || contains is_blank pattern)) (invalid_pattern id)
  guard (not (contains is_tag_byte (last_segment pattern))) (tagged_pattern id pattern)

unfoldable pub validate_patterns : Bytes → List Bytes → Result CatalogError (Unit {0})
validate_patterns id [] = ok tt
validate_patterns id (pattern ∷ patterns) =
    let rest = validate_patterns id patterns in validate_pattern id pattern >> rest

abbrev validate_group : Bytes → List Bytes → Result CatalogError (Unit {0})
validate_group id [] = err (empty_group id)
validate_group id (pattern ∷ patterns) = validate_patterns id (pattern ∷ patterns)

unfoldable pub validate_groups : Bytes → List (List Bytes) → Result CatalogError (Unit {0})
validate_groups id [] = ok tt
validate_groups id (group ∷ groups) =
    let rest = validate_groups id groups in validate_group id group >> rest

abbrev has_some : List (List Bytes) → Bool
has_some [] = false
has_some (_ ∷ _) = true

-- `validate`
unfoldable pub validate : Template → Result CatalogError (Unit {0})
validate t = do
  let id = t.metadata.id
  guard (t.api_version == codes "back-orbit.io/v1alpha1" && t.kind == codes "ProtectionTemplate")
      (unsupported_version id)
  guard
      (valid_id id
        && not (trim_space t.metadata.name == [])
        && not (trim_space t.metadata.version == []))
      invalid_metadata
  guard (has_some t.match.required_image_groups) (no_required_image id)
  validate_groups id (t.match.required_image_groups ++ t.match.optional_image_groups)

-- What reading one file of the catalog answers; closing is looked at behind decoding.
pub record File : Type 0 where
  pub opens : Bool
  pub decoded : Option Document
  pub closes : Bool

unfoldable pub has_id : Bytes → List Template → Bool
has_id id [] = false
has_id id (t ∷ ts) = let rest = has_id id ts in t.metadata.id == id || rest

-- The templates of one document behind those that are known; `seen` has their ids.
unfoldable pub add_templates : List Template → List Template → Result CatalogError (List Template)
add_templates all [] = ok all
add_templates all (t ∷ ts) = do
  validate t
  guard (not (has_id t.metadata.id all)) (duplicate_id t.metadata.id)
  add_templates (all ++ (t ∷ [])) ts

abbrev decoded_or : Option Document → Result CatalogError Document
decoded_or none = err decode_failed
decoded_or (some d) = ok d

unfoldable pub read_file : File → Result CatalogError Document
read_file file = do
  guard file.opens open_failed
  document ← decoded_or file.decoded
  guard file.closes close_failed
  guard (nat_beq document.schema_version catalog_schema_version)
      (unsupported_schema document.schema_version)
  ok document

unfoldable pub add_files : List Template → List File → Result CatalogError (List Template)
add_files all [] = ok all
add_files all (file ∷ files) = do
  document ← read_file file
  known ← add_templates all document.templates
  add_files known files

unfoldable pub insert_by_id : Template → List Template → List Template
insert_by_id t [] = t ∷ []
insert_by_id t (u ∷ us) =
    let rest = insert_by_id t us in
    if text_lt u.metadata.id t.metadata.id then u ∷ rest else t ∷ u ∷ us

unfoldable pub sort_by_id : List Template → List Template
sort_by_id [] = []
sort_by_id (t ∷ ts) = insert_by_id t (sort_by_id ts)

-- `LoadBuiltin`
unfoldable pub load_builtin : Option (List File) → Result CatalogError (List Template)
load_builtin none = err list_failed
load_builtin (some files) = do all ← add_files [] files; ok (sort_by_id all)
