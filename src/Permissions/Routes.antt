-- ===== src/Permissions/Routes.antt =====
-- Which user a channel address names after a route is registered, and what an unknown sender gets.
use assistant_platform.Base.{
  ℕ, ok, All, find, any, update, String, ◌≡◌, true, Option, none, some, List, [], ◌∷◌, ◌++◌, arith,
  eq_refl, Bool-cases, Option-cases, is_some, any-find, find-append, refl, ◌↔◌, inl, inr, Bool,
  false, ◌⊎◌, ◌&&◌, str_eq,
}
use assistant_platform.Permissions.Model.{
  Conn, UnknownPolicy, DmRow, request_approval, public, hold, strict, AccessDecision, allow, deny,
}
use assistant_platform.Permissions.Store.{
  add_user_dm, is_route, is_address, resolve_user_by_dm, get_user, upsert_dm,
}
use assistant_platform.Permissions.Access.{evaluate_sender, decide}

-- No user but `u` has a row with the address.
abbrev pub Exclusive : ℕ → String → String → List DmRow → Type 0
Exclusive u channel address rows =
    All (λ d. is_address channel address d ≡ true → d.user_id ≡ u) rows

abbrev pub user_of : Option DmRow → Option ℕ
user_of none = none
user_of (some d) = some d.user_id

find-update :
    (u : ℕ) (channel address : String) (rows : List DmRow)
    → Exclusive u channel address rows
    → any (is_route u channel) rows ≡ true
    → user_of (
        find
          (is_address channel address)
          (update (is_route u channel) (λ d. record d { address = address }) rows))
      ≡ some u
find-update u channel address [] h k = cc
find-update u channel address (d ∷ rows) h k =
    ground (arith, h.0, find-update u channel address rows h.1, eq_refl address)

find-push :
    (u : ℕ) (channel address : String) (rows : List DmRow)
    → Exclusive u channel address rows
    → user_of (
        find
          (is_address channel address)
          (rows ++ record { user_id = u; channel = channel; address = address } ∷ []))
      ≡ some u
find-push u channel address [] h = simp eq_refl
find-push u channel address (d ∷ rows) h = ground (arith, h.0, find-push u channel address rows h.1)

resolve-user_of :
    (c : Conn) (channel address : String)
    → resolve_user_by_dm c channel address ≡ user_of (find (is_address channel address) c.user_dms)
unfolding resolve_user_by_dm
resolve-user_of c channel address = ground arith

add_user_dm-rows :
    (c : Conn) (u : ℕ) (channel address : String)
    → (add_user_dm c u channel address).0 ≡ ok tt
    → (add_user_dm c u channel address).1.user_dms ≡ upsert_dm u channel address c.user_dms
unfolding add_user_dm
add_user_dm-rows c u channel address h = ground arith

find-upsert_dm :
    (u : ℕ) (channel address : String) (rows : List DmRow)
    → Exclusive u channel address rows
    → user_of (find (is_address channel address) (upsert_dm u channel address rows)) ≡ some u
find-upsert_dm u channel address rows h = elim (Bool-cases (any (is_route u channel) rows)) [
  | inl old ↦ rw old (find-update u channel address rows h old)
  | inr new ↦ rw new (find-push u channel address rows h)
]

-- After a registration that succeeds the address names its user, unless another user has a row with
-- the same address.
pub resolve-add_user_dm :
    (c : Conn) (u : ℕ) (channel address : String)
    → Exclusive u channel address c.user_dms
    → (add_user_dm c u channel address).0 ≡ ok tt
    → resolve_user_by_dm (add_user_dm c u channel address).1 channel address ≡ some u
resolve-add_user_dm c u channel address h k =
    rw (resolve-user_of _ channel address, add_user_dm-rows c u channel address k)
      (find-upsert_dm u channel address c.user_dms h)

find-upsert_dm_taken :
    (u : ℕ) (channel address : String) (rows : List DmRow) (d : DmRow)
    → any (is_route u channel) rows ≡ false
    → find (is_address channel address) rows ≡ some d
    → find (is_address channel address) (upsert_dm u channel address rows) ≡ some d
find-upsert_dm_taken u channel address rows d new h =
    rw (new, find-append (is_address channel address) rows _, h) refl

-- If the user is known and has no row on the channel, a registration of an address that already names
-- another user succeeds, and the address goes on naming the other user.
pub resolve-add_user_dm_taken :
    (c : Conn) (u v : ℕ) (channel address : String)
    → is_some (get_user c u) ≡ true
    → any (is_route u channel) c.user_dms ≡ false
    → resolve_user_by_dm c channel address ≡ some v
    → ((add_user_dm c u channel address).0 ≡ ok tt)
      × (resolve_user_by_dm (add_user_dm c u channel address).1 channel address ≡ some v)
resolve-add_user_dm_taken c u v channel address known new h =
    let accepted : (add_user_dm c u channel address).0 ≡ ok tt =
      unfold add_user_dm in ground arith in
    elim (Option-cases (find (is_address channel address) c.user_dms)) [
      | inl e ↦ cc (resolve-user_of c channel address)
      | inr (d, e) ↦ (
        accepted,
        rw
            (
              resolve-user_of _ channel address,
              add_user_dm-rows c u channel address accepted,
              find-upsert_dm_taken u channel address c.user_dms d new e,
            )
            (ground (arith, resolve-user_of c channel address)),
      )
    ]

abbrev pub is_hold : AccessDecision → Bool
is_hold (hold _) = true
is_hold _ = false

abbrev pub is_deny : AccessDecision → Bool
is_deny (deny _) = true
is_deny _ = false

-- Some row has the channel and the address.
abbrev pub has_sender : Conn → String → String → Bool
has_sender c channel address =
    any (λ d. str_eq d.channel channel && str_eq d.address address) c.user_dms

decide_exact :
    (known : Bool) (policy : UnknownPolicy)
    → (decide known policy ≡ allow ↔ (known ≡ true) ⊎ (policy ≡ public))
      × (is_hold (decide known policy) ≡ true ↔ (known ≡ false) × (policy ≡ request_approval))
      × (is_deny (decide known policy) ≡ true ↔ (known ≡ false) × (policy ≡ strict))
unfolding decide
decide_exact true policy = ((λ h. inl refl, λ h. refl), (λ h. cc, λ h. cc), (λ h. cc, λ h. cc))
decide_exact false strict = (
  (λ h. cc, λ h. elim h [ inl a ↦ cc | inr a ↦ cc ]),
  (λ h. cc, λ h. cc),
  (λ h. (refl, refl), λ h. refl),
)
decide_exact false request_approval = (
  (λ h. cc, λ h. elim h [ inl a ↦ cc | inr a ↦ cc ]),
  (λ h. (refl, refl), λ h. refl),
  (λ h. cc, λ h. cc),
)
decide_exact false public = ((λ h. inr refl, λ h. refl), (λ h. cc, λ h. cc), (λ h. cc, λ h. cc))

-- A sender whom some row names by the channel and the address is let in, whatever the policy. Of any
-- other sender the policy decides: public lets in, and only then; a request for approval holds, and
-- nothing else holds; strict denies, and nothing else denies.
pub evaluate_sender_exact :
    (c : Conn) (channel address : String) (policy : UnknownPolicy)
    → let known = has_sender c channel address in
      let decision = evaluate_sender c channel address policy in
      (decision ≡ allow ↔ (known ≡ true) ⊎ (policy ≡ public))
      × (is_hold decision ≡ true ↔ (known ≡ false) × (policy ≡ request_approval))
      × (is_deny decision ≡ true ↔ (known ≡ false) × (policy ≡ strict))
unfolding evaluate_sender
evaluate_sender_exact c channel address policy =
    let e = resolve-user_of c channel address in
    let f = any-find (is_address channel address) c.user_dms in
    let known : is_some (resolve_user_by_dm c channel address) ≡ has_sender c channel address =
      ground (arith, e, f) in
    rw known (decide_exact (has_sender c channel address) policy)
