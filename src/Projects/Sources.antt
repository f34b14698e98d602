-- ===== src/Projects/Sources.antt =====
-- internal/projects/sources.go. Of Docker's answer stands here what the code reads. A Go map from the
-- name to the source is an association list.
pub mod Listed
pub mod Mounted
pub mod Complete
mod Tests
use back_orbit.Base.{
  ℕ, List, [], ◌∷◌, ◌++◌, Option, none, some, Bool, true, false, not, ◌&&◌, ◌||◌, if◌then◌else◌,
  Bytes, codes, ◌==◌, nat_beq,
}
use back_orbit.Base.Assoc.{Assoc, insert, lookup}
use back_orbit.Base.Paths.{clean, is_abs, slash}
use back_orbit.Base.Text.{bytes_beq, bytes_eq}
use back_orbit.Base.Times.{text_lt}
use back_orbit.BackupRun.{BackupSource, SourceKind, bind, volume}
use back_orbit.BackupRun.Consistency.{append_unique}

pub data MountType : Type 0 where
  volume_mount bind_mount other_mount : MountType

pub record Mount : Type 0 where
  pub mount_type : MountType
  pub name : Bytes
  pub source : Bytes
  pub destination : Bytes

pub record Container : Type 0 where
  pub name : Bytes
  pub service : Bytes
  pub mounts : List Mount

-- `Detail`: the names of the volumes, and the containers.
pub record Detail : Type 0 where
  pub containers : List Container
  pub volumes : List Bytes

abbrev pub docker_socket : Bytes
docker_socket = codes "this is the Docker socket, not application data"

abbrev pub system_file : Bytes
system_file = codes "this is a host system file, not application data"

-- `unbackupablePaths`
abbrev pub unbackupable_paths : Assoc Bytes Bytes
unbackupable_paths =
    (codes "/var/run/docker.sock", docker_socket)
    ∷ (codes "/run/docker.sock", docker_socket)
    ∷ (
      codes "/run/host-services/docker.proxy.sock",
      codes "this is Docker Desktop's internal Docker socket, not application data",
    )
    ∷ (codes "/etc/localtime", system_file)
    ∷ (codes "/etc/timezone", system_file)
    ∷ []

-- strings.HasPrefix
unfoldable pub has_prefix : Bytes → Bytes → Bool
has_prefix s [] = true
has_prefix [] (c ∷ prefix) = false
has_prefix (d ∷ s) (c ∷ prefix) = let rest = has_prefix s prefix in nat_beq d c && rest

abbrev pub is_under : Bytes → Bytes → Bool
is_under path prefix = path == prefix || has_prefix path (prefix ++ (slash ∷ []))

abbrev pub is_kernel_path : Bytes → Bool
is_kernel_path path =
    is_under path (codes "/proc") || is_under path (codes "/sys") || is_under path (codes "/dev")

abbrev pub kernel_reason : Bytes → Bytes
kernel_reason path =
    if is_kernel_path path then codes "this is a kernel filesystem, not application data" else []

abbrev pub table_reason : Option Bytes → Bytes → Bytes
table_reason (some reason) path = reason
table_reason none path = kernel_reason path

unfoldable pub cleaned_reason : Bytes → Bytes → Bytes
cleaned_reason path destination =
    if destination == codes "/var/run/docker.sock" || destination == codes "/run/docker.sock"
    then docker_socket
    else if path == slash ∷ []
    then codes "this is the host's root directory"
    else table_reason (lookup path unbackupable_paths) path

-- `skipReason`
abbrev pub skip_reason : Bytes → Bytes → Bytes
skip_reason host_path container_path = cleaned_reason (clean host_path) (clean container_path)

-- `appendUnique`, which leaves out an empty value.
abbrev pub append_service : List Bytes → Bytes → List Bytes
append_service values value = if value == [] then values else append_unique values value

abbrev pub new_source : SourceKind → Bytes → Bytes → BackupSource
new_source kind name skipped = record {
  kind = kind;
  name = name;
  mounted_at = [];
  services = [];
  skipped = skipped;
}

abbrev pub or_new : Option BackupSource → BackupSource → BackupSource
or_new (some source) new = source
or_new none new = new

abbrev pub used_by : BackupSource → Bytes → Bytes → BackupSource
used_by source destination service = record source {
  mounted_at = destination;
  services = append_service source.services service;
}

-- The source of this name, or the new one, with this mount noted.
unfoldable pub note_use :
    BackupSource → Bytes → Bytes → Assoc Bytes BackupSource → Assoc Bytes BackupSource
note_use new destination service by_name =
    insert new.name (used_by (or_new (lookup new.name by_name) new) destination service) by_name

-- The source that a mount stands for, if it is one.
abbrev pub source_of : MountType → Mount → Option BackupSource
source_of volume_mount mount =
    if mount.name == [] then none else some (new_source volume mount.name [])
source_of bind_mount mount =
    if not (is_abs mount.source)
    then none
    else some (new_source bind mount.source (skip_reason mount.source mount.destination))
source_of other_mount mount = none

abbrev pub note_source :
    Option BackupSource → Bytes → Bytes → Assoc Bytes BackupSource → Assoc Bytes BackupSource
note_source none destination service by_name = by_name
note_source (some new) destination service by_name = note_use new destination service by_name

unfoldable pub add_mount : Bytes → Mount → Assoc Bytes BackupSource → Assoc Bytes BackupSource
add_mount service mount by_name =
    note_source (source_of mount.mount_type mount) mount.destination service by_name

unfoldable pub add_mounts : Bytes → List Mount → Assoc Bytes BackupSource → Assoc Bytes BackupSource
add_mounts service [] by_name = by_name
add_mounts service (mount ∷ mounts) by_name =
    add_mounts service mounts (add_mount service mount by_name)

abbrev pub service_of : Container → Bytes
service_of container = if container.service == [] then container.name else container.service

unfoldable pub add_containers : List Container → Assoc Bytes BackupSource → Assoc Bytes BackupSource
add_containers [] by_name = by_name
add_containers (container ∷ containers) by_name =
    add_containers containers (add_mounts (service_of container) container.mounts by_name)

unfoldable pub add_volumes : List Bytes → Assoc Bytes BackupSource → Assoc Bytes BackupSource
add_volumes [] by_name = by_name
add_volumes (name ∷ names) by_name =
    add_volumes names (insert name (new_source volume name []) by_name)

-- Volumes first, then binds, each by name.
abbrev pub kind_before : SourceKind → SourceKind → Bool
kind_before volume bind = true
kind_before _ _ = false

abbrev pub same_kind : SourceKind → SourceKind → Bool
same_kind volume volume = true
same_kind bind bind = true
same_kind _ _ = false

unfoldable pub source_before : BackupSource → BackupSource → Bool
source_before a b =
    if same_kind a.kind b.kind then text_lt a.name b.name else kind_before a.kind b.kind

unfoldable pub insert_source : BackupSource → List BackupSource → List BackupSource
insert_source a [] = a ∷ []
insert_source a (b ∷ bs) =
    let rest = insert_source a bs in if source_before b a then b ∷ rest else a ∷ b ∷ bs

unfoldable pub sorted_sources : Assoc Bytes BackupSource → List BackupSource
sorted_sources [] = []
sorted_sources ((_, source) ∷ by_name) = insert_source source (sorted_sources by_name)

-- `BackupSources`
unfoldable pub backup_sources : Detail → List BackupSource
backup_sources detail =
    sorted_sources (add_containers detail.containers (add_volumes detail.volumes []))
