-- ===== src/Session/Parity.antt =====
-- The host's sequence numbers are even and the container's are odd.
use mathlib.Core.Path.{subst}
use assistant_platform.Base.{
  ok, map, ◌==◌, if◌then◌else◌, ==_iff, err, All, find, any, All-append, All-update, All-map, ℕ,
  ◌+◌, ◌%◌, String, ◌≡◌, refl, Bool, true, false, not, Option, none, some, some-injective, List, [],
  ◌∷◌, ◌++◌, arith,
}
use assistant_platform.Session.Tables.{Session, InboundRow, OutboundRow, sqlite, with_messages_out}
use assistant_platform.Session.Host.{
  next_seq, InboundMessage, new_session, greatest, max_seq, next_of, Answer, in_seqs,
  enqueue_inbound_keyed, edited, upsert_inbound_meta, mark_delivered, set_routing, remainder,
  check_parity, verify_sequence_parity,
}
use assistant_platform.Session.Container.{emit_for, out_seqs, claim, set_status}
use assistant_platform.Session.Run.{
  Call, enqueues, upserts, delivers, routes, redirects, emits, claims, cleans, reports, after, run,
  InboundChange, same, added, changed, destinations-keeps, after-InboundChange,
}

-- Every number has the parity.
abbrev AllOf : Bool → List ℕ → Type 0
AllOf odd ns = All (λ n. n % 2 ≡ remainder odd) ns

keep_parity :
    (odd : Bool) (n : ℕ) (o : Option ℕ)
    → n % 2 ≡ remainder odd
    → ((k : ℕ) → o ≡ some k → k % 2 ≡ remainder odd)
    → greatest n o % 2 ≡ remainder odd
keep_parity odd n none h k = h
keep_parity odd n (some m) h k = let e = k m refl in ground arith

max_seq-AllOf :
    (odd : Bool) (ns : List ℕ) (m : ℕ) → AllOf odd ns → max_seq ns ≡ some m → m % 2 ≡ remainder odd
max_seq-AllOf odd [] m h e = absurd (cc)
max_seq-AllOf odd (n ∷ ns) m h e =
    subst (λ k. k % 2 ≡ remainder odd) (some-injective (greatest n (max_seq ns)) m e)
      (keep_parity odd n (max_seq ns) h.0 (λ k q. max_seq-AllOf odd ns k h.1 q))

zero_or_one : (odd : Bool) → remainder odd % 2 ≡ remainder odd
zero_or_one true = refl
zero_or_one false = refl

two_more : (m r : ℕ) → m % 2 ≡ r → (m + 2) % 2 ≡ r
two_more m r h = omega arith

next_seq-AllOf : (odd : Bool) (ns : List ℕ) → AllOf odd ns → next_seq odd ns % 2 ≡ remainder odd
unfolding next_seq
next_seq-AllOf odd ns h = at (max_seq ns) refl
  where
    at : (o : Option ℕ) → max_seq ns ≡ o → next_of odd o % 2 ≡ remainder odd
    at none e = zero_or_one odd
    at (some m) e = two_more m (remainder odd) (max_seq-AllOf odd ns m h e)

abbrev Even : List InboundRow → Type 0
Even rows = All (λ r. r.seq % 2 ≡ 0) rows

abbrev Odd : List OutboundRow → Type 0
Odd rows = All (λ r. r.seq % 2 ≡ 1) rows

to_seqs :
    {A : Type 0} (f : A → ℕ) (n : ℕ) (rows : List A)
    → All (λ r. f r % 2 ≡ n) rows
    → All (λ k. k % 2 ≡ n) (map f rows)
to_seqs f n [] h = tt
to_seqs f n (r ∷ rows) h = (h.0, to_seqs f n rows h.1)

change-Even : (rows rows' : List InboundRow) → InboundChange rows rows' → Even rows → Even rows'
change-Even rows rows' same h = h
change-Even rows rows' (added row e new) h =
    All-append (λ r. r.seq % 2 ≡ 0) rows (row ∷ []) h
      (rw e (next_seq-AllOf false (map (λ r. r.seq) rows) (to_seqs (λ r. r.seq) 0 rows h)), tt)
change-Even rows rows' (changed now message seq) h =
    All-update (λ r. r.seq % 2 ≡ 0) (λ r. r.seq == seq) (edited now message) rows (λ r p. p) h

emit-Odd :
    (now : String) (s : Session) (in_seq : Option ℕ) (kind content : String)
    → Odd s.messages_out
    → Odd (emit_for now s in_seq kind content).1.messages_out
unfolding emit_for
emit-Odd now s in_seq kind content h =
    at (any (λ r. r.seq == next_seq true (out_seqs s)) s.messages_out)
  where
    row : OutboundRow
    row = record {
      seq = next_seq true (out_seqs s);
      kind = kind;
      content = content;
      metadata = none;
      created_at = now;
      in_seq = in_seq;
    }

    odd_answer : Answer → Type 0
    odd_answer a = Odd a.1.messages_out

    at :
        (b : Bool)
        → odd_answer (
            if b
            then (err (sqlite "UNIQUE constraint failed"), s)
            else (ok row.seq, with_messages_out s (s.messages_out ++ row ∷ [])))
    at true = h
    at false =
        All-append (λ r. r.seq % 2 ≡ 1) s.messages_out (row ∷ []) h
          (next_seq-AllOf true (out_seqs s) (to_seqs (λ r. r.seq) 1 s.messages_out h), tt)

enqueue-out :
    (now : String) (s : Session) (message : InboundMessage) (key : Option String)
    → (enqueue_inbound_keyed now s message key).1.messages_out ≡ s.messages_out
unfolding enqueue_inbound_keyed
enqueue-out now s message key = ground arith

upsert-out :
    (now : String) (s : Session) (key : String) (message : InboundMessage)
    → (upsert_inbound_meta now s key message).1.messages_out ≡ s.messages_out
unfolding upsert_inbound_meta
upsert-out now s key message = ground arith

after-Odd : (c : Call) (s : Session) → Odd s.messages_out → Odd (after s c).messages_out
unfolding mark_delivered set_routing claim set_status
after-Odd (enqueues now message key) s h = rw (enqueue-out now s message key) h
after-Odd (upserts now key message) s h = rw (upsert-out now s key message) h
after-Odd (delivers seq) s h = h
after-Odd (routes key value) s h = h
after-Odd (redirects ds) s h = rw ((destinations-keeps s ds).1) h
after-Odd (emits now in_seq kind content) s h = emit-Odd now s in_seq kind content h
after-Odd (claims in_seq by) s h = h
after-Odd cleans s h = h
after-Odd (reports status run_id) s h = h

run-Parity :
    (calls : List Call) (s : Session)
    → Even s.messages_in
    → Odd s.messages_out
    → Even (run s calls).messages_in × Odd (run s calls).messages_out
run-Parity [] s h k = (h, k)
run-Parity (c ∷ calls) s h k =
    run-Parity calls (after s c)
      (change-Even s.messages_in (after s c).messages_in (after-InboundChange c s) h)
      (after-Odd c s k)

find-AllOf :
    (odd : Bool) (ns : List ℕ) → AllOf odd ns → find (λ n. not (n % 2 == remainder odd)) ns ≡ none
find-AllOf odd [] h = refl
find-AllOf odd (n ∷ ns) h = ground (arith, find-AllOf odd ns h.1, ==_iff (n % 2) (remainder odd))

differs-Odd :
    (n : ℕ) (rows : List OutboundRow)
    → Odd rows
    → n % 2 ≡ 0
    → any (λ m. m == n) (map (λ r. r.seq) rows) ≡ false
differs-Odd n [] h e = refl
differs-Odd n (r ∷ rows) h e = ground (arith, differs-Odd n rows h.1 e, h.0, ==_iff r.seq n)

-- Whatever the host and the container write to a new session, in whatever order, the check of the
-- sequence numbers passes, and no number of an inbound message is that of an outbound one.
pub run-parity :
    (calls : List Call)
    → let s = run new_session calls in
      (verify_sequence_parity s ≡ ok tt)
      × All (λ n. any (λ m. m == n) (out_seqs s) ≡ false) (in_seqs s)
unfolding verify_sequence_parity check_parity
run-parity calls =
    let s = run new_session calls in
    let (even, odd) = run-Parity calls new_session tt tt in
    let ins = to_seqs (λ r. r.seq) 0 s.messages_in even in
    let outs = to_seqs (λ r. r.seq) 1 s.messages_out odd in
    (
      rw (find-AllOf false (in_seqs s) ins, find-AllOf true (out_seqs s) outs) refl,
      All-map (λ n. n % 2 ≡ 0) (λ n. any (λ m. m == n) (out_seqs s) ≡ false) (in_seqs s)
          (λ n e. differs-Odd n s.messages_out odd e) ins,
    )
