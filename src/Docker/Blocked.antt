-- ===== src/Docker/Blocked.antt =====
-- Which paths is_blocked of crates/assistant-runtime-docker/src/mount.rs refuses.
use assistant_platform.Graph.Cycle.Paths.{listed}
use assistant_platform.Base.{
  All, any, String, ◌≡◌, true, false, List, [], ◌∷◌, arith, refl, ◌↔◌, Bool-cases, sym, ap, ◌≢◌,
  inl, inr, Bool, ◌||◌, Option, none, some, str_eq, eq_iff,
}
use assistant_platform.Docker.Path.{
  PathBuf, is_parent, Component, root_dir, cur_dir, parent_dir, normal, is_named, file_name,
  extension,
}
use assistant_platform.Docker.Mount.{is_blocked, blocked_names, blocked_extensions, is_listed_in}

-- The text is none of these.
abbrev pub NoneOf : List String → String → Type 0
NoneOf names s = All (λ b. s ≢ b) names

-- No component is `.ssh` or `.aws` in this spelling; the lower-cased file name is none of seven, and
-- the lower-cased extension none of two.
abbrev pub NoCredential : (String → String) → PathBuf → Type 0
NoCredential lower path =
    All (λ c. (c ≢ normal ".ssh") × (c ≢ normal ".aws")) path
    × ((name : String)
        → file_name path ≡ some name
        → NoneOf
            (".env" ∷ "credentials" ∷ "credentials.json" ∷ "id_rsa" ∷ "id_ed25519" ∷ ".npmrc"
              ∷ ".netrc" ∷ [])
            (lower name))
    × ((ext : String) → extension path ≡ some ext → NoneOf ("pem" ∷ "key" ∷ []) (lower ext))

pub any-false_iff :
    (p : Component → Bool) (P : Component → Type 0)
    → ((c : Component) → p c ≡ false ↔ P c)
    → (path : PathBuf) → any p path ≡ false ↔ All P path
any-false_iff p P h [] = (λ _. tt, λ _. refl)
any-false_iff p P h (c ∷ path) =
    let rest = any-false_iff p P h path in
    let here = h c in
    (
      λ e. (here.0 (ground arith), rest.0 (ground arith)),
      λ k. let a = here.1 k.0 in let b = rest.1 k.1 in ground arith,
    )

pub is_parent_iff : (c : Component) → is_parent c ≡ false ↔ (c ≢ parent_dir)
is_parent_iff root_dir = (λ _ h. cc, λ _. refl)
is_parent_iff cur_dir = (λ _ h. cc, λ _. refl)
is_parent_iff parent_dir = (λ h. absurd (cc), λ h. absurd (h refl))
is_parent_iff (normal s) = (λ _ h. cc, λ _. refl)

is_named_iff : (name : String) (c : Component) → is_named name c ≡ true ↔ c ≡ normal name
is_named_iff name root_dir = (λ h. cc, λ h. cc)
is_named_iff name cur_dir = (λ h. cc, λ h. cc)
is_named_iff name parent_dir = (λ h. cc, λ h. cc)
is_named_iff name (normal s) = (λ h. ap normal ((eq_iff s name).0 h), λ h. (eq_iff s name).1 (cc))

is_private_iff :
    (c : Component)
    → (is_named ".ssh" c || is_named ".aws" c) ≡ false ↔ (c ≢ normal ".ssh") × (c ≢ normal ".aws")
is_private_iff c =
    let s = is_named_iff ".ssh" c in
    let a = is_named_iff ".aws" c in
    (
      λ h. (λ e. let t = s.1 e in ground arith, λ e. let t = a.1 e in ground arith),
      λ h. elim (Bool-cases (is_named ".ssh" c)) [
        | inl t ↦ absurd (h.0 (s.0 t))
        | inr f ↦ elim (Bool-cases (is_named ".aws" c)) [
          | inl t ↦ absurd (h.1 (a.0 t))
          | inr g ↦ ground arith
        ]
      ],
    )

listed_iff : (s : String) (names : List String) → listed s names ≡ false ↔ NoneOf names s
listed_iff s [] = (λ _. tt, λ _. refl)
listed_iff s (b ∷ names) =
    let rest = listed_iff s names in
    let e = eq_iff b s in
    (
      λ h. (λ q. let t = e.1 (sym q) in ground arith, rest.0 (ground arith)),
      λ k.
          let r = rest.1 k.1 in
          elim (Bool-cases (str_eq b s)) [
            | inl t ↦ absurd (k.0 (sym (e.0 t)))
            | inr f ↦ ground arith
          ],
    )

is_listed_in_iff :
    (lower : String → String) (o : Option String) (names : List String)
    → is_listed_in lower o names ≡ false ↔ ((s : String) → o ≡ some s → NoneOf names (lower s))
is_listed_in_iff lower none names = (λ _ s h. absurd (cc h), λ _. refl)
is_listed_in_iff lower (some t) names =
    let l = listed_iff (lower t) names in
    (λ h s e. let same : t ≡ s = ground arith in rw (← same) (l.0 h), λ h. l.1 (h t refl))

pub is_blocked_iff :
    (lower : String → String) (path : PathBuf)
    → is_blocked lower path ≡ false ↔ NoCredential lower path
unfolding is_blocked
is_blocked_iff lower path =
    let private =
      any-false_iff (λ c. is_named ".ssh" c || is_named ".aws" c)
        (λ c. (c ≢ normal ".ssh") × (c ≢ normal ".aws")) is_private_iff path in
    let name = is_listed_in_iff lower (file_name path) blocked_names in
    let ext = is_listed_in_iff lower (extension path) blocked_extensions in
    (
      λ h. (private.0 (ground arith), name.0 (ground arith), ext.0 (ground arith)),
      λ h. let a = private.1 h.0 in let b = name.1 h.1 in let c = ext.1 h.2 in ground arith,
    )
