-- ===== src/Projects/Sources/Tests.antt =====
-- The sources of a concrete project.
use back_orbit.Base.{[], ◌∷◌, ◌≡◌, refl, true, All, Any, codes, inl}
use back_orbit.Base.Assoc.{insert, lookup}
use back_orbit.Base.Paths.{clean, components, is_abs, join_slash, resolve}
use back_orbit.Base.Text.{bytes_beq}
use back_orbit.Base.Times.{text_lt}
use back_orbit.BackupRun.{bind, volume}
use back_orbit.BackupRun.Consistency.{append_unique}
use back_orbit.BackupRun.Runner.{is_backupable}
use back_orbit.Projects.Sources.{
  Detail, Mount, add_containers, add_mount, add_mounts, add_volumes, backup_sources, bind_mount,
  cleaned_reason, docker_socket, has_prefix, insert_source, note_use, sorted_sources, source_before,
}
use back_orbit.Projects.Sources.Complete.{backup_sources-HoldsData, backup_sources-MayHoldData}
use back_orbit.Projects.Sources.Listed.{MayHoldData}
use back_orbit.Projects.Sources.Mounted.{shows_directory}

abbrev config : Mount
config = record {
  mount_type = bind_mount;
  name = [];
  source = codes "/srv/app";
  destination = codes "/config";
}

abbrev socket : Mount
socket = record {
  mount_type = bind_mount;
  name = [];
  source = codes "/run//docker.sock";
  destination = codes "/sock";
}

abbrev detail : Detail
detail = record {
  containers =
      record { name = codes "app-1"; service = codes "app"; mounts = config ∷ socket ∷ [] } ∷ [];
  volumes = codes "db" ∷ [];
}

listed :
    backup_sources detail
    ≡ (record { kind = volume; name = codes "db"; mounted_at = []; services = []; skipped = [] })
      ∷ (record {
        kind = bind;
        name = codes "/run//docker.sock";
        mounted_at = codes "/sock";
        services = codes "app" ∷ [];
        skipped = docker_socket;
      })
      ∷ (record {
        kind = bind;
        name = codes "/srv/app";
        mounted_at = codes "/config";
        services = codes "app" ∷ [];
        skipped = [];
      })
      ∷ []
unfolding backup_sources add_containers add_mounts add_mount add_volumes note_use insert lookup
    is_abs cleaned_reason clean components resolve join_slash has_prefix insert_source
    sorted_sources source_before text_lt bytes_beq append_unique
listed = refl

backup_sources-HoldsData_example : Any (λ s. s.name ≡ codes "/srv/app") (backup_sources detail)
unfolding is_abs
backup_sources-HoldsData_example =
    (backup_sources-HoldsData detail (codes "/srv/app")).1
      (inl (inl (inl (shows_directory refl refl refl))))

backup_sources-MayHoldData_example :
    All (λ s. s.kind ≡ bind → is_backupable s ≡ true → MayHoldData s.name) (backup_sources detail)
backup_sources-MayHoldData_example = backup_sources-MayHoldData detail
