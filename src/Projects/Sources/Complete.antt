-- ===== src/Projects/Sources/Complete.antt =====
-- Which sources a project has.
use back_orbit.Base.{
  List, [], ◌∷◌, true, ◌≡◌, ◌↔◌, ◌⊎◌, refl, sym, ◌∙◌, arith, All, Any, Bytes, Bool-cases,
  Option-cases, inl, inr,
}
use back_orbit.Base.Assoc.{Assoc, insert}
use back_orbit.Base.Text.{bytes_eq}
use back_orbit.BackupRun.{BackupSource, bind, volume}
use back_orbit.BackupRun.Runner.{is_backupable}
use back_orbit.Projects.Sources.{
  Container, Detail, Mount, add_containers, add_mount, add_mounts, add_volumes, backup_sources,
  insert_source, new_source, service_of, sorted_sources, source_before, source_of,
}
use back_orbit.Projects.Sources.Listed.{
  All-insert, HasName, IsEntry, IsSafe, MayHoldData, note_use-IsEntry, source_of-IsSafe,
}
use back_orbit.Projects.Sources.Mounted.{HoldsData, add_containers-Adds, add_volumes-Adds}

-- Every entry stands under its name and is safe, through all the loops.
add_mount-IsEntry :
    (service : Bytes) (mount : Mount) (m : Assoc Bytes BackupSource)
    → All IsEntry m
    → All IsEntry (add_mount service mount m)
unfolding add_mount
add_mount-IsEntry service mount m h = elim (Option-cases (source_of mount.mount_type mount)) [
  | inl e ↦ rw e h
  | inr (new, e) ↦ rw e (
      note_use-IsEntry new mount.destination service m
        (source_of-IsSafe mount.mount_type mount new e) h)
]

add_mounts-IsEntry :
    (service : Bytes) (mounts : List Mount) (m : Assoc Bytes BackupSource)
    → All IsEntry m
    → All IsEntry (add_mounts service mounts m)
unfolding add_mounts
add_mounts-IsEntry service [] m h = h
add_mounts-IsEntry service (mount ∷ mounts) m h =
    add_mounts-IsEntry service mounts (add_mount service mount m)
      (add_mount-IsEntry service mount m h)

add_containers-IsEntry :
    (containers : List Container) (m : Assoc Bytes BackupSource)
    → All IsEntry m
    → All IsEntry (add_containers containers m)
unfolding add_containers
add_containers-IsEntry [] m h = h
add_containers-IsEntry (c ∷ containers) m h =
    add_containers-IsEntry containers (add_mounts (service_of c) c.mounts m)
      (add_mounts-IsEntry (service_of c) c.mounts m h)

add_volumes-IsEntry :
    (names : List Bytes) (m : Assoc Bytes BackupSource)
    → All IsEntry m
    → All IsEntry (add_volumes names m)
unfolding add_volumes IsSafe
add_volumes-IsEntry [] m h = h
add_volumes-IsEntry (name ∷ names) m h =
    add_volumes-IsEntry names (insert name (new_source volume name []) m)
      (All-insert IsEntry name (new_source volume name []) m (refl, λ kind. ground (arith, kind)) h)

Any-insert_source :
    (P : BackupSource → Type 0) (a : BackupSource) (bs : List BackupSource)
    → Any P (insert_source a bs) ↔ (P a ⊎ Any P bs)
unfolding insert_source
Any-insert_source P a [] = ((λ h. h), (λ h. h))
Any-insert_source P a (b ∷ bs) = elim (Bool-cases (source_before b a)) [
  | inl e ↦
      let ih = Any-insert_source P a bs in
      rw e (
        λ h. elim h [
          | inl p ↦ inr (inl p)
          | inr q ↦ elim (ih.0 q) [ inl p ↦ inl p | inr r ↦ inr (inr r) ]
        ],
        λ h. elim h [
          | inl p ↦ inr (ih.1 (inl p))
          | inr q ↦ elim q [ inl p ↦ inl p | inr r ↦ inr (ih.1 (inr r)) ]
        ],
      )
  | inr e ↦ rw e ((λ h. h), (λ h. h))
]

Any-sorted_sources :
    (k : Bytes) (m : Assoc Bytes BackupSource)
    → All IsEntry m
    → Any (λ s. s.name ≡ k) (sorted_sources m) ↔ HasName k m
unfolding sorted_sources
Any-sorted_sources k [] h = ((λ x. x), (λ x. x))
Any-sorted_sources k ((j, s) ∷ m) h =
    let ih = Any-sorted_sources k m h.1 in
    let put = Any-insert_source (λ x. x.name ≡ k) s (sorted_sources m) in
    (
      λ x. elim (put.0 x) [ inl p ↦ inl (sym h.0.0 ∙ p) | inr q ↦ inr (ih.0 q) ],
      λ x. elim x [ inl p ↦ put.1 (inl (h.0.0 ∙ p)) | inr q ↦ put.1 (inr (ih.1 q)) ],
    )

All-insert_source :
    (P : BackupSource → Type 0) (a : BackupSource) (bs : List BackupSource)
    → P a
    → All P bs
    → All P (insert_source a bs)
unfolding insert_source
All-insert_source P a [] p h = (p, tt)
All-insert_source P a (b ∷ bs) p h = elim (Bool-cases (source_before b a)) [
  | inl e ↦ rw e (h.0, All-insert_source P a bs p h.1)
  | inr e ↦ rw e (p, h)
]

All-sorted_sources : (m : Assoc Bytes BackupSource) → All IsEntry m → All IsSafe (sorted_sources m)
unfolding sorted_sources
All-sorted_sources [] h = tt
All-sorted_sources ((j, s) ∷ m) h =
    All-insert_source IsSafe s (sorted_sources m) h.0.1 (All-sorted_sources m h.1)

entries : (d : Detail) → All IsEntry (add_containers d.containers (add_volumes d.volumes []))
entries d =
    add_containers-IsEntry d.containers (add_volumes d.volumes [])
      (add_volumes-IsEntry d.volumes [] tt)

-- The sources of a project are its named volumes, the volumes that its containers mount and the host
-- directories that they mount by an absolute path: each of them is listed, and nothing else is.
pub backup_sources-HoldsData :
    (d : Detail) (k : Bytes) → Any (λ s. s.name ≡ k) (backup_sources d) ↔ HoldsData d k
unfolding backup_sources
backup_sources-HoldsData d k =
    let listed =
      Any-sorted_sources k (add_containers d.containers (add_volumes d.volumes [])) (entries d) in
    let mounted = add_containers-Adds k d.containers (add_volumes d.volumes []) in
    let named = add_volumes-Adds k d.volumes [] in
    (
      λ h. elim (mounted.0 (listed.0 h)) [
        | inl p ↦ inl p
        | inr q ↦ elim (named.0 q) [ inl v ↦ inr v | inr none_yet ↦ elim none_yet [ ] ]
      ],
      λ h. listed.1 (mounted.1 (elim h [ inl p ↦ inl p | inr v ↦ inr (named.1 (inl v)) ])),
    )

-- A host directory that will be backed up is, cleaned, neither the root nor a listed system file or
-- socket, nor below /proc, /sys or /dev.
pub backup_sources-MayHoldData :
    (d : Detail)
    → All (λ s. s.kind ≡ bind → is_backupable s ≡ true → MayHoldData s.name) (backup_sources d)
unfolding backup_sources IsSafe
backup_sources-MayHoldData d =
    All-sorted_sources (add_containers d.containers (add_volumes d.volumes [])) (entries d)
