-- ===== src/Router/Engaged.antt =====
-- Sticky engagement over time.
use mathlib.Core.Path.{subst}
use assistant_platform.Base.{
  if◌then◌else◌, ◌==◌, ==_iff, ==_refl, All, any, update, any-append, All-append, ℕ, String, ◌≡◌,
  refl, sym, ◌∙◌, Bool, true, false, ◌&&◌, Option, none, some, List, [], ◌∷◌, ◌++◌, arith, str_eq,
  eq_iff, eq_refl,
}
use assistant_platform.Router.Sticky.{
  StickyTable, EpochSecs, StickyEngagement, is_key, opened, open_sticky, has_active_sticky, closed,
  has_run_out, expire_sticky, is_open_of, reset_sticky,
}
use assistant_platform.Router.Sessions.{
  Session, StickyCall, opens, expires, resets, after, run, swept, sees, sees_all, is_alive, Shows,
  IsShown, Represents, Represents-alive, All-update_to, any-update_where, HasRow-same, HasRow-swept,
  swept_over, swept_kept, run_out-over,
}

module _ (group : ℕ) (key : String) where
  on_row :
      (s : Session) (q : StickyEngagement → Bool) (f : StickyEngagement → StickyEngagement)
      → (row : StickyEngagement) → (q row ≡ true → IsShown group key s (f row))
      → (q row ≡ false → IsShown group key s row)
      → IsShown group key s (if q row then f row else row)
  on_row s q f row yes_case no_case = at (q row) refl
    where
      at : (b : Bool) → q row ≡ b → IsShown group key s (if b then f row else row)
      at true e = yes_case e
      at false e = no_case e

  expire_row :
      (now : EpochSecs) (s : Session) (row : StickyEngagement)
      → IsShown group key s row
      → IsShown group key (swept now s) (if has_run_out now row then closed "expired" row else row)
  expire_row now s row h =
      on_row (swept now s) (has_run_out now) (closed "expired") row
        (λ e k.
          subst (λ x. Shows x (closed "expired" row))
            (sym (swept_over now s (sym (run_out-over now s row (h k)) ∙ e))) refl)
        (λ e k.
          subst (λ x. Shows x row) (sym (swept_kept now s (sym (run_out-over now s row (h k)) ∙ e)))
            (h k))

  expire-Represents :
      (now : EpochSecs) (s : Session) (rows : StickyTable)
      → Represents group key s rows
      → Represents group key (swept now s) (expire_sticky rows now).1
  unfolding expire_sticky
  expire-Represents now s rows h = (
    All-update_to (IsShown group key s) (IsShown group key (swept now s)) (has_run_out now)
        (closed "expired") rows (expire_row now s) h.0,
    HasRow-swept group key now s (update (has_run_out now) (closed "expired") rows) (
        HasRow-same group key s rows (update (has_run_out now) (closed "expired") rows)
          (any-update_where (is_key group key) (has_run_out now) (closed "expired") rows
            (λ x e. refl))
          h.1),
  )

  -- A conversation and another.
  same_key :
      (g : ℕ) (k : String) (row : StickyEngagement)
      → (g == group && str_eq k key) ≡ true
      → is_key g k row ≡ is_key group key row
  same_key g k row e =
      let q : (g ≡ group) × (k ≡ key) = ground (arith, ==_iff g group, eq_iff k key) in
      rw (q.0, q.1) refl

  other_key :
      (g : ℕ) (k : String) (row : StickyEngagement)
      → (g == group && str_eq k key) ≡ false
      → is_key g k row ≡ true
      → is_key group key row ≡ false
  other_key g k row e h = ground (
    arith,
    ==_iff g group,
    eq_iff k key,
    ==_iff row.agent_group_id g,
    ==_iff row.agent_group_id group,
    eq_iff row.engagement_key k,
    eq_iff row.engagement_key key,
  )

  reset-Represents :
      (g : ℕ) (k : String) (reason : String) (s : Session) (rows : StickyTable)
      → Represents group key s rows
      → Represents group key (sees group key s (resets g k reason)) (reset_sticky rows g k reason).1
  unfolding reset_sticky
  reset-Represents g k reason s rows h = at (g == group && str_eq k key) refl
    where
      at :
          (b : Bool)
          → (g == group && str_eq k key) ≡ b
          → Represents group key
              (if b then none else s)
              (update (is_open_of g k) (closed reason) rows)
      at true e = (
        All-update_to (IsShown group key s) (IsShown group key none) (is_open_of g k)
            (closed reason) rows
            (λ x i.
              on_row none (is_open_of g k) (closed reason) x (λ o q. refl)
                (λ o q. ground (arith, same_key g k x e)))
            h.0,
        tt,
      )
      at false e = (
        All-update_to (IsShown group key s) (IsShown group key s) (is_open_of g k) (closed reason)
            rows
            (λ x i.
              on_row s (is_open_of g k) (closed reason) x
                (λ o q. absurd (ground (arith, other_key g k x e))) (λ o q. i q))
            h.0,
        HasRow-same group key s rows (update (is_open_of g k) (closed reason) rows)
            (any-update_where (is_key group key) (is_open_of g k) (closed reason) rows
              (λ x o. refl))
            h.1,
      )

  -- The row of another conversation is not this one's.
  other_opened :
      (g : ℕ) (k : String) (root scope : Option String) (t : Option EpochSecs)
      → (g == group && str_eq k key) ≡ false
      → is_key group key (opened g k root scope t) ≡ false
  other_opened g k root scope t e = e

  same_opened :
      (g : ℕ) (k : String) (root scope : Option String) (t : Option EpochSecs)
      → is_key g k (opened g k root scope t) ≡ true
  same_opened g k root scope t = ground (arith, ==_refl g, eq_refl k)

  any-update_all :
      (p : StickyEngagement → Bool) (new : StickyEngagement) (rows : StickyTable)
      → p new ≡ true
      → any p rows ≡ true
      → any p (update p (λ _. new) rows) ≡ true
  any-update_all p new [] e h = absurd (cc)
  any-update_all p new (x ∷ rows) e h = ground (arith, any-update_all p new rows e)

  none-IsShown :
      (g : ℕ) (k : String) (t : Option EpochSecs) (rows : StickyTable)
      → (g == group && str_eq k key) ≡ true
      → any (is_key g k) rows ≡ false
      → All (IsShown group key (some t)) rows
  none-IsShown g k t [] e h = tt
  none-IsShown g k t (x ∷ rows) e h =
      (λ q. absurd (ground (arith, same_key g k x e)), none-IsShown g k t rows e (ground arith))

  opens_same :
      (g : ℕ) (k : String) (root scope : Option String) (t : Option EpochSecs) (s : Session)
      → (rows : StickyTable) (known : Bool) → any (is_key g k) rows ≡ known
      → (g == group && str_eq k key) ≡ true
      → Represents group key s rows
      → Represents group key (some t) (
          if known
          then update (is_key g k) (λ _. opened g k root scope t) rows
          else rows ++ opened g k root scope t ∷ [])
  opens_same g k root scope t s rows true a e h =
      let q : (g ≡ group) × (k ≡ key) = ground (arith, ==_iff g group, eq_iff k key) in
      (
        All-update_to (IsShown group key s) (IsShown group key (some t)) (is_key g k)
            (λ _. opened g k root scope t) rows
            (λ x i.
              on_row (some t) (is_key g k) (λ _. opened g k root scope t) x (λ o u. (refl, refl))
                (λ o u. absurd (ground (arith, same_key g k x e))))
            h.0,
        subst
            (λ g'.
              any (is_key g' key) (update (is_key g k) (λ _. opened g k root scope t) rows) ≡ true)
            q.0
            (subst
              (λ k'.
                any (is_key g k') (update (is_key g k) (λ _. opened g k root scope t) rows) ≡ true)
              q.1
              (any-update_all (is_key g k) (opened g k root scope t) rows
                (same_opened g k root scope t) a)),
      )
  opens_same g k root scope t s rows false a e h = (
    All-append (IsShown group key (some t)) rows (opened g k root scope t ∷ [])
        (none-IsShown g k t rows e a) ((λ u. (refl, refl)), tt),
    any-append (is_key group key) rows (opened g k root scope t ∷ []) ∙ ground (arith, e),
  )

  opens_other :
      (g : ℕ) (k : String) (root scope : Option String) (t : Option EpochSecs) (s : Session)
      → (rows : StickyTable) (known : Bool) → (g == group && str_eq k key) ≡ false
      → Represents group key s rows
      → Represents group key s (
          if known
          then update (is_key g k) (λ _. opened g k root scope t) rows
          else rows ++ opened g k root scope t ∷ [])
  opens_other g k root scope t s rows true e h = (
    All-update_to (IsShown group key s) (IsShown group key s) (is_key g k)
        (λ _. opened g k root scope t) rows
        (λ x i.
          on_row s (is_key g k) (λ _. opened g k root scope t) x
            (λ o u. absurd (let f = other_opened g k root scope t e in cc)) (λ o u. i u))
        h.0,
    HasRow-same group key s rows (update (is_key g k) (λ _. opened g k root scope t) rows)
        (any-update_where (is_key group key) (is_key g k) (λ _. opened g k root scope t) rows
          (λ x o. other_opened g k root scope t e ∙ sym (other_key g k x e o)))
        h.1,
  )
  opens_other g k root scope t s rows false e h = (
    All-append (IsShown group key s) rows (opened g k root scope t ∷ []) h.0
        ((λ u. absurd (let f = other_opened g k root scope t e in cc)), tt),
    HasRow-same group key s rows (rows ++ opened g k root scope t ∷ [])
        (any-append (is_key group key) rows (opened g k root scope t ∷ []) ∙ ground (arith, e)) h.1,
  )

  after-Represents :
      (c : StickyCall) (s : Session) (rows : StickyTable)
      → Represents group key s rows
      → Represents group key (sees group key s c) (after rows c)
  unfolding open_sticky
  after-Represents (opens g k root scope t) s rows h = at (g == group && str_eq k key) refl
    where
      at :
          (b : Bool)
          → (g == group && str_eq k key) ≡ b
          → Represents group key (if b then some t else s) (open_sticky rows g k root scope t)
      at true e = opens_same g k root scope t s rows (any (is_key g k) rows) refl e h
      at false e = opens_other g k root scope t s rows (any (is_key g k) rows) e h
  after-Represents (expires now) s rows h = expire-Represents now s rows h
  after-Represents (resets g k reason) s rows h = reset-Represents g k reason s rows h

  run-Represents :
      (calls : List StickyCall) (s : Session) (rows : StickyTable)
      → Represents group key s rows
      → Represents group key (sees_all group key s calls) (run rows calls)
  run-Represents [] s rows h = h
  run-Represents (c ∷ calls) s rows h =
      run-Represents calls (sees group key s c) (after rows c) (after-Represents c s rows h)

-- Whatever sessions are opened, swept and reset, in whatever order, from an empty table: a conversation
-- is engaged at a time exactly if it has a session, opened last after every reset of it, whose expiry,
-- if it has one, was after every later sweep and is after that time. Other conversations play no part.
pub sticky_refines :
    (calls : List StickyCall) (group : ℕ) (key : String) (now : EpochSecs)
    → has_active_sticky (run [] calls) group key now ≡ is_alive now (sees_all group key none calls)
sticky_refines calls group key now =
    Represents-alive group key now (sees_all group key none calls) (run [] calls)
      (run-Represents group key calls none [] (tt, tt))
