-- ===== src/Projects/Sources/Mounted.antt =====
-- Which names the mounts of a project add.
use back_orbit.Base.{
  List, [], ◌∷◌, some, true, ◌≡◌, ◌≢◌, ◌↔◌, ◌⊎◌, refl, sym, ap, ◌∙◌, arith, Any, Bytes, Bool-cases,
  Option-cases, inl, inr,
}
use back_orbit.Base.Assoc.{Assoc, insert}
use back_orbit.Base.Paths.{is_abs}
use back_orbit.Base.Text.{bytes_beq, bytes_beq-ne, bytes_eq, ne_of_bytes_beq}
use back_orbit.BackupRun.{BackupSource, bind, volume}
use back_orbit.Projects.Sources.{
  Container, Detail, Mount, MountType, add_containers, add_mount, add_mounts, add_volumes,
  bind_mount, new_source, note_use, other_mount, service_of, skip_reason, source_of, volume_mount,
}
use back_orbit.Projects.Sources.Listed.{HasName, HasName-insert}

-- The mount is one of the named volume, or of the host directory.
pub data Shows (mount : Mount) (k : Bytes) : Type 0 where
  shows_volume : mount.mount_type ≡ volume_mount → mount.name ≡ k → k ≢ [] → Shows mount k
  shows_directory :
      mount.mount_type ≡ bind_mount → mount.source ≡ k → is_abs k ≡ true → Shows mount k

-- A volume of the project, or a volume or host directory that one of its containers mounts.
abbrev pub HoldsData : Detail → Bytes → Type 0
HoldsData d k =
    Any (λ c. Any (λ mount. Shows mount k) c.mounts) d.containers ⊎ Any (λ v. v ≡ k) d.volumes

⊎_chain : {A B C P Q : Type 0} → A ↔ (P ⊎ B) → C ↔ (Q ⊎ A) → C ↔ ((P ⊎ Q) ⊎ B)
⊎_chain h k = (
  λ c. elim (k.0 c) [
    | inl q ↦ inl (inr q)
    | inr a ↦ elim (h.0 a) [ inl p ↦ inl (inl p) | inr b ↦ inr b ]
  ],
  λ r. elim r [
    | inl pq ↦ elim pq [ inl p ↦ k.1 (inr (h.1 (inl p))) | inr q ↦ k.1 (inl q) ]
    | inr b ↦ k.1 (inr (h.1 (inr b)))
  ],
)

⊎_empty : {C : Type 0} → C ↔ (⊥ ⊎ C)
⊎_empty = ((λ c. inr c), (λ r. elim r [ inl x ↦ elim x [ ] | inr c ↦ c ]))

module _ (k : Bytes) where
  abbrev pub Adds : Assoc Bytes BackupSource → Assoc Bytes BackupSource → Type 0 → Type 0
  Adds m n P = HasName k n ↔ (P ⊎ HasName k m)

  source_of-name :
      (mount : Mount)
      → ((new : BackupSource) × (source_of mount.mount_type mount ≡ some new) × (new.name ≡ k))
        ↔ Shows mount k
  source_of-name mount = (λ (new, e, name). shown mount.mount_type refl new e name, λ h. given h)
    where
      shown :
          (t : MountType)
          → mount.mount_type ≡ t
          → (new : BackupSource) → source_of t mount ≡ some new
          → new.name ≡ k
          → Shows mount k
      shown volume_mount is new e name = elim (Bool-cases (bytes_beq mount.name [])) [
        | inl empty ↦ ground (arith, rw empty at e)
        | inr named ↦
            let same : new_source volume mount.name [] ≡ new = ground (arith, rw named at e) in
            let own : mount.name ≡ k = ap (λ (s : BackupSource). s.name) same ∙ name in
            shows_volume is own (λ (q : k ≡ []). ne_of_bytes_beq mount.name [] named (own ∙ q))
      ]
      shown bind_mount is new e name = elim (Bool-cases (is_abs mount.source)) [
        | inl absolute ↦
            let same : new_source bind mount.source (skip_reason mount.source mount.destination)
                ≡ new =
              ground (arith, rw absolute at e) in
            let own : mount.source ≡ k = ap (λ (s : BackupSource). s.name) same ∙ name in
            shows_directory is own (sym (ap is_abs own) ∙ absolute)
        | inr relative ↦ ground (arith, rw relative at e)
      ]
      shown other_mount is new e name = ground (arith, e)

      given :
          Shows mount k
          → (new : BackupSource) × (source_of mount.mount_type mount ≡ some new) × (new.name ≡ k)
      given (shows_volume is name ne) = (
        new_source volume mount.name [],
        rw (is, bytes_beq-ne mount.name [] (λ (q : mount.name ≡ []). ne (sym name ∙ q))) refl,
        name,
      )
      given (shows_directory is name absolute) = (
        new_source bind mount.source (skip_reason mount.source mount.destination),
        rw (is, ap is_abs name ∙ absolute) refl,
        name,
      )

  add_mount-Adds :
      (service : Bytes) (mount : Mount) (m : Assoc Bytes BackupSource)
      → Adds m (add_mount service mount m) (Shows mount k)
  unfolding add_mount note_use
  add_mount-Adds service mount m = elim (Option-cases (source_of mount.mount_type mount)) [
    | inl e ↦ rw e (
      (λ h. inr h),
      λ r. elim r [
        | inl s ↦ let (new, found, _) = (source_of-name mount).1 s in ground (arith, e, found)
        | inr h ↦ h
      ],
    )
    | inr (new, e) ↦
        let put = HasName-insert k new.name _ m in
        rw e (
          λ h. elim (put.0 h) [
            | inl name ↦ inl ((source_of-name mount).0 (new, e, name))
            | inr q ↦ inr q
          ],
          λ r. elim r [
            | inl s ↦
                let (found, f, name) = (source_of-name mount).1 s in
                let same : found ≡ new = ground (arith, e, f) in
                put.1 (inl (sym (ap (λ (s : BackupSource). s.name) same) ∙ name))
            | inr q ↦ put.1 (inr q)
          ],
        )
  ]

  add_mounts-Adds :
      (service : Bytes) (mounts : List Mount) (m : Assoc Bytes BackupSource)
      → Adds m (add_mounts service mounts m) (Any (λ mount. Shows mount k) mounts)
  unfolding add_mounts
  add_mounts-Adds service [] m = ⊎_empty
  add_mounts-Adds service (mount ∷ mounts) m =
      ⊎_chain (add_mount-Adds service mount m)
        (add_mounts-Adds service mounts (add_mount service mount m))

  pub add_containers-Adds :
      (containers : List Container) (m : Assoc Bytes BackupSource)
      → Adds m
          (add_containers containers m)
          (Any (λ c. Any (λ mount. Shows mount k) c.mounts) containers)
  unfolding add_containers
  add_containers-Adds [] m = ⊎_empty
  add_containers-Adds (c ∷ containers) m =
      ⊎_chain (add_mounts-Adds (service_of c) c.mounts m)
        (add_containers-Adds containers (add_mounts (service_of c) c.mounts m))

  pub add_volumes-Adds :
      (names : List Bytes) (m : Assoc Bytes BackupSource)
      → Adds m (add_volumes names m) (Any (λ v. v ≡ k) names)
  unfolding add_volumes
  add_volumes-Adds [] m = ⊎_empty
  add_volumes-Adds (name ∷ names) m =
      ⊎_chain (HasName-insert k name (new_source volume name []) m)
        (add_volumes-Adds names (insert name (new_source volume name []) m))
