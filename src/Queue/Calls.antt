-- ===== src/Queue/Calls.antt =====
-- Histories of calls: what the queue keeps true, and what comes out of it.
use mathlib.Core.List.{append_assoc, append-nil}
use agent_gpu.Prelude.{
  ◌<◌, ◌≤◌, ◌+◌, ◌%◌, ◌^◌, ◌≡◌, refl, sym, ◌⊎◌, inl, inr, ◌&&◌, leb, Option, none, some, List, [],
  ◌∷◌, ◌++◌, arith, All, All-imp, All-append, Bool-cases, ltb, length, length-append, String, ap,
  ◌∙◌,
}
use agent_gpu.Store.{Time}
use agent_gpu.Types.{Job}
use agent_gpu.Queue.{Queue, Item, Priority, Error, full, closed, new_item, enqueue, dequeue, close}
use agent_gpu.Queue.Pop.{IsArrival, All-Pops, Pops-IsArrival, heap_pop-Pops, Pops-length}
use agent_gpu.Queue.Lanes.{lane, items-enqueue, dequeue-lane}

pub data Call : Type 0 where
  enqueues : Job → String → Priority → Time → Call
  dequeues closes : Call

unfoldable pub step : Queue → Call → Queue
step q (enqueues job key p now) = (enqueue job key p now q).0
step q dequeues = (dequeue q).0
step q closes = close q

-- What a call lets in, and what it hands out.
abbrev when_none : Option Error → Item → List Item
when_none none it = it ∷ []
when_none (some _) it = []

abbrev to_list : Option Item → List Item
to_list none = []
to_list (some it) = it ∷ []

unfoldable pub let_in : Queue → Call → List Item
let_in q (enqueues job key p now) = when_none (enqueue job key p now q).1 (new_item job key p now q)
let_in q _ = []

unfoldable pub handed_out : Queue → Call → List Item
handed_out q dequeues = to_list (dequeue q).1
handed_out q _ = []

unfoldable pub run : Queue → List Call → Queue
run q [] = q
run q (c ∷ cs) = run (step q c) cs

unfoldable pub accepted : Queue → List Call → List Item
accepted q [] = []
accepted q (c ∷ cs) = let_in q c ++ accepted (step q c) cs

unfoldable pub served : Queue → List Call → List Item
served q [] = []
served q (c ∷ cs) = handed_out q c ++ served (step q c) cs

-- The items stand in the order of arrival, their numbers are used up, and a bound holds.
pub record IsValid (q : Queue) : Type 0 where
  pub arrival : IsArrival q.items
  pub used : All (λ y. y.seq < q.seq) q.items
  pub bounded : 0 < q.max_depth → length q.items ≤ q.max_depth

IsArrival-snoc :
    (xs : List Item) (x : Item)
    → IsArrival xs
    → All (λ y. y.seq < x.seq) xs
    → IsArrival (xs ++ x ∷ [])
IsArrival-snoc [] x a b = (tt, tt)
IsArrival-snoc (y ∷ xs) x a b =
    (All-append (λ z. y.seq < z.seq) xs (x ∷ []) a.0 (b.0, tt), IsArrival-snoc xs x a.1 b.1)

enqueue-IsValid :
    (job : Job) (key : String) (p : Priority) (now : Time) (q : Queue)
    → q.seq + 1 < 2 ^ 64
    → IsValid q
    → IsValid (enqueue job key p now q).0
unfolding enqueue new_item
enqueue-IsValid job key p now q h v = elim (Bool-cases q.is_closed) [
  | inl c ↦ simp (c, enqueue) v
  | inr c ↦ elim (Bool-cases (ltb 0 q.max_depth && leb q.max_depth (length q.items))) [
    | inl f ↦ simp (c, enqueue, f) v
    | inr f ↦
        let wrap : (q.seq + 1) % 2 ^ 64 ≡ q.seq + 1 = omega arith in
        simp (c, enqueue, f, wrap)
          (record {
            arrival = IsArrival-snoc q.items (new_item job key p now q) v.arrival v.used;
            used =
                All-append (λ y. y.seq < q.seq + 1) q.items (new_item job key p now q ∷ [])
                  (All-imp (λ y. y.seq < q.seq) (λ y. y.seq < q.seq + 1) q.items
                    (λ y l. omega arith) v.used)
                  (omega arith, tt);
            bounded = λ h. ground (arith, length-append q.items (new_item job key p now q ∷ []));
          })
  ]
]

dequeue-IsValid : (q : Queue) → IsValid q → IsValid (dequeue q).0
unfolding dequeue
dequeue-IsValid q v = elim (heap_pop-Pops q.items) [
  | inl (n, e) ↦ rw (e, dequeue) v
  | inr (it, rest, e, p) ↦
      rw (e, dequeue)
        (record {
          arrival = Pops-IsArrival p v.arrival;
          used = (All-Pops (λ y. y.seq < q.seq) p v.used).1;
          bounded = λ h. omega (arith, v.bounded h, Pops-length p);
        })
]

close-IsValid : (q : Queue) → IsValid q → IsValid (close q)
unfolding close
close-IsValid q v = elim (Bool-cases q.is_closed) [
  | inl c ↦ simp (c, close) v
  | inr c ↦ simp (c, close) (record { arrival = v.arrival; used = v.used; bounded = v.bounded })
]

-- Every call keeps the items in the order of arrival, their numbers below the next one, and the
-- depth within the bound, as long as the next number does not wrap.
pub step-IsValid : (q : Queue) (c : Call) → q.seq + 1 < 2 ^ 64 → IsValid q → IsValid (step q c)
unfolding step
step-IsValid q (enqueues job key p now) h v = enqueue-IsValid job key p now q h v
step-IsValid q dequeues h v = dequeue-IsValid q v
step-IsValid q closes h v = close-IsValid q v

seq-step-le : (q : Queue) (c : Call) → q.seq + 1 < 2 ^ 64 → (step q c).seq ≤ q.seq + 1
unfolding step enqueue dequeue close
seq-step-le q (enqueues job key p now) h = ground arith
seq-step-le q dequeues h = ground arith
seq-step-le q closes h = ground arith

pub run-IsValid :
    (q : Queue) (cs : List Call) → q.seq + length cs < 2 ^ 64 → IsValid q → IsValid (run q cs)
unfolding run
run-IsValid q [] h v = v
run-IsValid q (c ∷ cs) h v =
    run-IsValid (step q c) cs (omega (arith, seq-step-le q c)) (step-IsValid q c (omega arith) v)

-- A refused job leaves the queue as it was.
pub enqueue-cases :
    (job : Job) (key : String) (p : Priority) (now : Time) (q : Queue)
    → ((enqueue job key p now q).1 ≡ none) ⊎ ((e : Error) × (enqueue job key p now q ≡ (q, some e)))
unfolding enqueue
enqueue-cases job key p now q = elim (Bool-cases q.is_closed) [
  | inl c ↦ inr (closed, simp c refl)
  | inr c ↦ elim (Bool-cases (ltb 0 q.max_depth && leb q.max_depth (length q.items))) [
    | inl f ↦ inr (full, simp (c, f) refl)
    | inr f ↦ inl (simp (c, f) refl)
  ]
]

close-items : (q : Queue) → (close q).items ≡ q.items
unfolding close
close-items q = ground arith

lane-append : (p : Priority) (xs ys : List Item) → lane p (xs ++ ys) ≡ lane p xs ++ lane p ys
unfolding lane
lane-append p [] ys = refl
lane-append p (x ∷ xs) ys = ground (arith, lane-append p xs ys)

-- What one call does to a line.
step-lane :
    (q : Queue) (c : Call) (p : Priority)
    → IsValid q
    → lane p (handed_out q c) ++ lane p (step q c).items ≡ lane p q.items ++ lane p (let_in q c)
unfolding step handed_out let_in lane
step-lane q (enqueues job key r now) p v = elim (enqueue-cases job key r now q) [
  | inl ok ↦ rw (ok, items-enqueue job key r now q ok) (lane-append p q.items _)
  | inr (e, refused) ↦
      rw (ap (λ r. r.1) refused, ap (λ r. r.0) refused) (sym (append-nil (lane p q.items)))
]
step-lane q dequeues p v = elim (dequeue-lane q v.arrival) [
  | inl (n, e) ↦ rw (ap (λ r. r.1) e, ap (λ r. r.0) e, append-nil (lane p q.items)) refl
  | inr (it, rest, e, head, above) ↦
      rw (ap (λ r. r.1) e, ap (λ r. r.0) e, append-nil (lane p q.items), head p) (ground arith)
]
step-lane q closes p v = rw (close-items q, append-nil (lane p q.items)) refl

shift-append :
    (xs us vs ys zs : List Item) → xs ++ us ≡ vs ++ ys → xs ++ (us ++ zs) ≡ vs ++ (ys ++ zs)
shift-append xs us vs ys zs e =
    sym (append_assoc xs us zs) ∙ ap (λ r. r ++ zs) e ∙ append_assoc vs ys zs

-- First in, first out: over any history of calls, the items of one priority that were handed out,
-- followed by those still in the queue, are those that were in it at the beginning followed by
-- those that it accepted, in the same order. The queue is valid at the beginning, and its numbers
-- do not wrap.
pub run-lane :
    (q : Queue) (cs : List Call) (p : Priority)
    → q.seq + length cs < 2 ^ 64
    → IsValid q
    → lane p (served q cs) ++ lane p (run q cs).items ≡ lane p q.items ++ lane p (accepted q cs)
unfolding run served accepted lane
run-lane q [] p h v = sym (append-nil _)
run-lane q (c ∷ cs) p h v =
    let rest =
      run-lane (step q c) cs p (omega (arith, seq-step-le q c))
        (step-IsValid q c (omega arith) v) in
    let first = step-lane q c p v in
    rw (lane-append p (handed_out q c) _, lane-append p (let_in q c) _, append_assoc, rest)
      (shift-append (lane p (handed_out q c)) _ _ (lane p (let_in q c)) _ first)
