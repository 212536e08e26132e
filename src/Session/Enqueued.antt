-- ===== src/Session/Enqueued.antt =====
-- What an idempotency key of an inbound message promises.
use mathlib.Core.Option
use mathlib.Core.Path.{subst}
use assistant_platform.Base.{
  ok, map, ◌==◌, if◌then◌else◌, All, or_else, find, any, find-append, All-map, fresh_of_above,
  find-update, ℕ, ◌≤◌, ◌<◌, String, ◌≡◌, refl, sym, ap, ◌∙◌, false, Option, none, some,
  some-injective, List, [], ◌∷◌, ◌++◌, arith, eq_refl,
}
use assistant_platform.Session.Tables.{Session, InboundRow, with_messages_in}
use assistant_platform.Session.Host.{
  next_seq, InboundMessage, greatest, max_seq, next_of, has_key, seq_of, existing, in_seqs,
  inbound_row, enqueue_inbound_keyed, edited,
}
use assistant_platform.Session.Run.{
  Call, after, run, InboundChange, same, added, changed, after-InboundChange,
}

greatest-above :
    (n : ℕ) (o : Option ℕ) (ns : List ℕ)
    → (o ≡ none → ns ≡ [])
    → ((k : ℕ) → o ≡ some k → All (λ i. i ≤ k) ns)
    → (n ≤ greatest n o) × All (λ i. i ≤ greatest n o) ns
greatest-above n none ns e h = (omega arith, rw (e refl) tt)
greatest-above n (some m) ns e h =
    let less : (n ≤ greatest n (some m)) × (m ≤ greatest n (some m)) = ground arith in
    (less.0, All-map (λ i. i ≤ m) _ ns (λ i g. omega (arith, g, less.1)) (h m refl))

max_seq-none : (ns : List ℕ) → max_seq ns ≡ none → ns ≡ []
max_seq-none [] h = refl
max_seq-none (n ∷ ns) h = absurd (cc)

max_seq-above : (ns : List ℕ) (m : ℕ) → max_seq ns ≡ some m → All (λ i. i ≤ m) ns
max_seq-above [] m h = absurd (cc)
max_seq-above (n ∷ ns) m h =
    subst (λ k. All (λ i. i ≤ k) (n ∷ ns)) (some-injective (greatest n (max_seq ns)) m h)
      (greatest-above n (max_seq ns) ns (max_seq-none ns) (max_seq-above ns))

next_seq-above : (ns : List ℕ) → All (λ i. i < next_seq false ns) ns
unfolding next_seq
next_seq-above ns = at (max_seq ns) refl
  where
    at : (o : Option ℕ) → max_seq ns ≡ o → All (λ i. i < next_of false o) ns
    at none e = rw (max_seq-none ns e) tt
    at (some m) e = All-map (λ i. i ≤ m) _ ns (λ i g. omega (arith, g)) (max_seq-above ns m e)

any-seqs :
    (n : ℕ) (rows : List InboundRow)
    → any (λ i. i == n) (map (λ r. r.seq) rows) ≡ any (λ r. r.seq == n) rows
any-seqs n [] = refl
any-seqs n (r ∷ rows) = ground (arith, any-seqs n rows)

next_seq-fresh :
    (rows : List InboundRow)
    → any (λ r. r.seq == next_seq false (map (λ r. r.seq) rows)) rows ≡ false
next_seq-fresh rows =
    sym (any-seqs (next_seq false (map (λ r. r.seq) rows)) rows)
    ∙ fresh_of_above (next_seq false (map (λ r. r.seq) rows)) (map (λ r. r.seq) rows)
        (next_seq-above (map (λ r. r.seq) rows))

abbrev Has : String → ℕ → List InboundRow → Type 0
Has key seq rows = existing (some key) rows ≡ some seq

seq_of-edit :
    (now : String) (message : InboundMessage) (n : ℕ) (o : Option InboundRow)
    → seq_of (Option.map (λ r. if r.seq == n then edited now message r else r) o) ≡ seq_of o
seq_of-edit now message n none = refl
seq_of-edit now message n (some r) = ground arith

seq_of-append :
    (o p : Option InboundRow) (seq : ℕ) → seq_of o ≡ some seq → seq_of (or_else o p) ≡ some seq
seq_of-append none p seq h = absurd (cc)
seq_of-append (some r) p seq h = h

change-Has :
    (key : String) (seq : ℕ) (rows rows' : List InboundRow)
    → InboundChange rows rows'
    → Has key seq rows
    → Has key seq rows'
change-Has key seq rows rows' same h = h
change-Has key seq rows rows' (added row e new) h =
    ap seq_of (find-append (has_key key) rows (row ∷ []))
    ∙ seq_of-append (find (has_key key) rows) (find (has_key key) (row ∷ [])) seq h
change-Has key seq rows rows' (changed now message n) h =
    ap seq_of (find-update (has_key key) (λ r. r.seq == n) (edited now message) rows (λ r. refl))
    ∙ seq_of-edit now message n (find (has_key key) rows)
    ∙ h

run-Has :
    (key : String) (seq : ℕ) (calls : List Call) (s : Session)
    → Has key seq s.messages_in
    → Has key seq (run s calls).messages_in
run-Has key seq [] s h = h
run-Has key seq (c ∷ calls) s h =
    run-Has key seq calls (after s c)
      (change-Has key seq s.messages_in (after s c).messages_in (after-InboundChange c s) h)

enqueue_found :
    (now : String) (s : Session) (message : InboundMessage) (key : String) (seq : ℕ)
    → Has key seq s.messages_in
    → enqueue_inbound_keyed now s message (some key) ≡ (ok seq, s)
unfolding enqueue_inbound_keyed
enqueue_found now s message key seq h = ground (arith, h)

seq_of-none : (o : Option InboundRow) → seq_of o ≡ none → o ≡ none
seq_of-none none h = refl
seq_of-none (some r) h = absurd (cc)

enqueue_new :
    (now : String) (s : Session) (message : InboundMessage) (key : String)
    → existing (some key) s.messages_in ≡ none
    → let row = inbound_row now message (some key) message.thread_id (next_seq false (in_seqs s)) in
      enqueue_inbound_keyed now s message (some key)
      ≡ (ok row.seq, with_messages_in s (s.messages_in ++ row ∷ []))
unfolding enqueue_inbound_keyed
enqueue_new now s message key h = ground (arith, h, next_seq-fresh s.messages_in)

new-Has :
    (key : String) (rows : List InboundRow) (row : InboundRow)
    → row.idempotency_key ≡ some key
    → existing (some key) rows ≡ none
    → Has key row.seq (rows ++ row ∷ [])
new-Has key rows row e h =
    ap seq_of (find-append (has_key key) rows (row ∷ []))
    ∙ ground (arith, seq_of-none (find (has_key key) rows) h, e, eq_refl key)

-- A keyed message always gets a number; from then on, whatever the host and the container write, a
-- message of that key, whatever it says, gets the same number and nothing is written.
pub enqueued_once :
    (now : String) (s : Session) (message : InboundMessage) (key : String)
    → (seq : ℕ) × ((enqueue_inbound_keyed now s message (some key)).0 ≡ ok seq)
      × ((calls : List Call) (later : String) (other : InboundMessage)
          → let t = run (enqueue_inbound_keyed now s message (some key)).1 calls in
            enqueue_inbound_keyed later t other (some key) ≡ (ok seq, t))
enqueued_once now s message key = at (existing (some key) s.messages_in) refl
  where
    from :
        (seq : ℕ) (t : Session)
        → Has key seq t.messages_in
        → enqueue_inbound_keyed now s message (some key) ≡ (ok seq, t)
        → (seq : ℕ) × ((enqueue_inbound_keyed now s message (some key)).0 ≡ ok seq)
          × ((calls : List Call) (later : String) (other : InboundMessage)
              → let t = run (enqueue_inbound_keyed now s message (some key)).1 calls in
                enqueue_inbound_keyed later t other (some key) ≡ (ok seq, t))
    from seq t h e = (
      seq,
      ap (λ a. a.0) e,
      λ calls later other.
          enqueue_found later (run (enqueue_inbound_keyed now s message (some key)).1 calls) other
            key seq
            (run-Has key seq calls (enqueue_inbound_keyed now s message (some key)).1
              (subst (λ a. Has key seq a.1.messages_in) (sym e) h)),
    )

    at :
        (o : Option ℕ)
        → existing (some key) s.messages_in ≡ o
        → (seq : ℕ) × ((enqueue_inbound_keyed now s message (some key)).0 ≡ ok seq)
          × ((calls : List Call) (later : String) (other : InboundMessage)
              → let t = run (enqueue_inbound_keyed now s message (some key)).1 calls in
                enqueue_inbound_keyed later t other (some key) ≡ (ok seq, t))
    at (some seq) e = from seq s e (enqueue_found now s message key seq e)
    at none e =
        let row =
          inbound_row now message (some key) message.thread_id (next_seq false (in_seqs s)) in
        from row.seq (with_messages_in s (s.messages_in ++ row ∷ []))
          (new-Has key s.messages_in row refl e) (enqueue_new now s message key e)
