-- ===== src/Docker/Allowed.antt =====
-- What validate_mounts of crates/assistant-runtime-docker/src/mount.rs lets through.
use assistant_platform.Base.{
  ok, All, any, String, ◌≡◌, true, false, not, ◌&&◌, List, [], ◌∷◌, ◌++◌, arith, any-append, refl,
  ◌↔◌, All-map, ◌≢◌, Bool,
}
use assistant_platform.Docker.Path.{
  PathBuf, same_path, is_under, is_parent, root_dir, parent_dir, normal,
}
use assistant_platform.Docker.Mount.{
  Mount, is_read_only, container_inbound_db, is_blocked, is_target, validate_each, validate_mounts,
  MountMode, read_only, read_write,
}
use assistant_platform.Docker.Blocked.{NoCredential, any-false_iff, is_parent_iff, is_blocked_iff}

-- The host path has no `..`, is no credential path and is under a root, and the inbound database is
-- mounted read-only.
abbrev pub Allowed : (String → String) → List PathBuf → Mount → Type 0
Allowed lower roots m =
    All (λ c. c ≢ parent_dir) m.host_path
    × NoCredential lower m.host_path
    × (any (is_under m.host_path) roots ≡ true)
    × (same_path m.container_path (root_dir ∷ normal "session" ∷ normal "inbound.db" ∷ []) ≡ true
        → m.mode ≡ read_only)

-- The tests of the code.
abbrev Passes : (String → String) → List PathBuf → Mount → Type 0
Passes lower roots m =
    (any is_parent m.host_path ≡ false)
    × (is_blocked lower m.host_path ≡ false)
    × (any (is_under m.host_path) roots ≡ true)
    × ((same_path m.container_path container_inbound_db && not (is_read_only m.mode)) ≡ false)

mode_iff :
    (b : Bool) (mode : MountMode)
    → (b && not (is_read_only mode)) ≡ false ↔ (b ≡ true → mode ≡ read_only)
mode_iff false mode = (λ _ h. cc, λ _. refl)
mode_iff true read_only = (λ _ _. refl, λ _. refl)
mode_iff true read_write = (λ h. absurd (cc), λ h. let e = h refl in cc)

Passes-Allowed :
    (lower : String → String) (roots : List PathBuf) (m : Mount)
    → Passes lower roots m ↔ Allowed lower roots m
Passes-Allowed lower roots m =
    let parent = any-false_iff is_parent (λ c. c ≢ parent_dir) is_parent_iff m.host_path in
    let blocked = is_blocked_iff lower m.host_path in
    let mode = mode_iff (same_path m.container_path container_inbound_db) m.mode in
    (
      λ h. (parent.0 h.0, blocked.0 h.1, h.2, mode.0 h.3),
      λ h. (parent.1 h.0, blocked.1 h.1, h.2, mode.1 h.3),
    )

abbrev pub DistinctTargets : List Mount → Type 0
DistinctTargets [] = Unit
DistinctTargets (m ∷ mounts) =
    All (λ n. same_path m.container_path n.container_path ≡ false) mounts × DistinctTargets mounts

abbrev Fresh : List PathBuf → Mount → Type 0
Fresh seen m = any (is_target m.container_path) seen ≡ false

module _ (lower : String → String) (roots seen : List PathBuf) (m : Mount)
    (mounts : List Mount) where
  passes :
      validate_each lower roots seen (m ∷ mounts) ≡ ok tt
      → Passes lower roots m
        × Fresh seen m
        × (validate_each lower roots (seen ++ m.container_path ∷ []) mounts ≡ ok tt)
  unfolding validate_each
  passes h = ground arith

  passed :
      Passes lower roots m
      → Fresh seen m
      → validate_each lower roots (seen ++ m.container_path ∷ []) mounts ≡ ok tt
      → validate_each lower roots seen (m ∷ mounts) ≡ ok tt
  unfolding validate_each
  passed a f h = rw (a.0, a.1, a.2, a.3, f) h

append-Fresh :
    (m : Mount) (seen : List PathBuf) (mounts : List Mount)
    → All (Fresh (seen ++ m.container_path ∷ [])) mounts ↔ (
        All (Fresh seen) mounts
        × All (λ n. same_path m.container_path n.container_path ≡ false) mounts)
append-Fresh m seen [] = (λ _. (tt, tt), λ _. tt)
append-Fresh m seen (n ∷ mounts) =
    let rest = append-Fresh m seen mounts in
    let split = any-append (is_target n.container_path) seen (m.container_path ∷ []) in
    (
      λ h.
          let r = rest.0 h.1 in
          ((ground (arith, h.0, split), r.0), (ground (arith, h.0, split), r.1)),
      λ h. (ground (arith, h.0.0, h.1.0, split), rest.1 (h.0.1, h.1.1)),
    )

validate_each-Passes :
    (lower : String → String) (roots seen : List PathBuf) (mounts : List Mount)
    → (validate_each lower roots seen mounts ≡ ok tt)
      ↔ (All (Passes lower roots) mounts × DistinctTargets mounts × All (Fresh seen) mounts)
validate_each-Passes lower roots seen [] = (λ _. (tt, tt, tt), λ _. unfold validate_each in refl)
validate_each-Passes lower roots seen (m ∷ mounts) =
    let rest = validate_each-Passes lower roots (seen ++ m.container_path ∷ []) mounts in
    let split = append-Fresh m seen mounts in
    (
      λ h.
          let p = passes lower roots seen m mounts h in
          let r = rest.0 p.2 in let f = split.0 r.2 in ((p.0, r.0), (f.1, r.1), (p.1, f.0)),
      λ h.
          passed lower roots seen m mounts h.0.0 h.2.0
            (rest.1 (h.0.1, h.1.1, split.1 (h.2.1, h.1.0))),
    )

All-Fresh : (mounts : List Mount) → All (Fresh []) mounts
All-Fresh [] = tt
All-Fresh (m ∷ mounts) = (refl, All-Fresh mounts)

pub validate_mounts-Allowed :
    (lower : String → String) (mounts : List Mount) (roots : List PathBuf)
    → (validate_mounts lower mounts roots ≡ ok tt)
      ↔ (All (Allowed lower roots) mounts × DistinctTargets mounts)
unfolding validate_mounts
validate_mounts-Allowed lower mounts roots =
    let each = validate_each-Passes lower roots [] mounts in
    (
      λ h.
          let e = each.0 h in
          (All-map _ _ mounts (λ m p. (Passes-Allowed lower roots m).0 p) e.0, e.1),
      λ h. each.1 (
        All-map _ _ mounts (λ m p. (Passes-Allowed lower roots m).1 p) h.0,
        h.1,
        All-Fresh mounts,
      ),
    )
