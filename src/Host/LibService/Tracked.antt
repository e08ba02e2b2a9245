-- ===== src/Host/LibService/Tracked.antt =====
-- A session keeps hold of exactly the buffers that its client has.
use mathlib.Core.Path.{subst}
use mathlib.Core.Bool.{true≢false}
use mathlib.Core.Option.{none-ne-some, some-injective}
use amp_host_go.Base.{
  ℕ, zero, suc, ◌+◌, ◌-◌, ◌%◌, ◌^◌, ◌≤◌, ◌<◌, ◌≡◌, ◌⊎◌, refl, sym, ap, ◌∙◌, Bool, true, false, not,
  ◌&&◌, ◌||◌, Option, none, some, List, [], ◌∷◌, ◌==◌, ltb, leb, if◌then◌else◌, get_elem?, set,
  Bool-cases, if_true, if_false, ==_iff, inl, inr, arith, All, length, length-set, replicate,
  get_elem?_in,
}
use amp_host_go.Base.Words.{is_negative}
use amp_host_go.Base.Assoc.{lookup, delete, lookup-insert, lookup-delete}
use amp_host_go.Host.LibService.{
  Buffer, LibSession, Client, no_buffer, dim_sz, reallocate, realloc, close_lib, LibEvent, reallocs,
  closes, lib_step, lib_run, new_client,
}
use amp_host_go.Host.LibService.Replacing.{has, IsSized, IsTracked, IsReplaced, replaced-IsTracked}

freed_lem :
    (b : Buffer) (m : List (ℕ × Unit {0})) (p : ℕ)
    → lookup p (if ltb 0 b.cap then delete b.ptr m else m) ≡ (if has b p then none else lookup p m)
freed_lem b m p = elim (Bool-cases (ltb 0 b.cap)) [
  | inl t ↦ rw t (lookup-delete b.ptr p m)
  | inr f ↦ rw f refl
]

resized :
    (b : Buffer) (n : ℕ) (s : LibSession)
    → IsSized b
    → ((p : ℕ) → has b p ≡ true → lookup p s.mallocs ≡ some tt)
    → ((p : ℕ) → lookup p s.mallocs ≡ some tt → p < s.next_ptr)
    → 0 < n
    → n ≤ b.cap
    → IsReplaced s b (record b { len = n }) s
resized b n s z h g pos fits = record {
  sized' = elim z [ inl e ↦ absurd (omega (arith, e.0, pos, fits)) | inr e ↦ inr (pos, fits, e.2) ];
  now = λ p. elim (Bool-cases (has b p)) [
    | inl y ↦ h p y ∙ sym (if_true _ _ y)
    | inr m ↦ sym (if_false _ _ m ∙ if_false _ _ m)
  ];
  mine = λ p y. inl y;
  later = omega arith;
  given' = λ p y. g p (h p y);
  same_closing = refl;
  same_closed = refl;
}

-- Realloc of a buffer of the session, for a length that can be rounded up.
realloc-IsReplaced :
    (max_alloc : ℕ) (b : Buffer) (requested : ℕ) (s : LibSession)
    → IsSized b
    → ((p : ℕ) → has b p ≡ true → lookup p s.mallocs ≡ some tt)
    → ((p : ℕ) → lookup p s.mallocs ≡ some tt → p < s.next_ptr)
    → (is_negative requested ≡ true)
      ⊎ ((requested < 2 ^ 63 - 1023) × (dim_sz requested ≤ max_alloc))
    → (r : Buffer × LibSession) × (realloc max_alloc b requested s ≡ some r)
      × IsReplaced s b r.0 r.1
unfolding realloc reallocate
realloc-IsReplaced max_alloc b requested s z h g small =
    let n = if is_negative requested then 0 else requested in
    let fits_int : n < 2 ^ 63 - 1023 = elim small [
      | inl neg ↦ ground (arith, neg)
      | inr (less, _) ↦ ground (arith, less)
    ] in
    elim (Bool-cases (ltb 0 n && leb n b.cap)) [
      | inl t ↦ (_, if_true _ _ t, resized b n s z h g (ground (arith, t)) (ground (arith, t)))
      | inr f ↦
          let readable : (ltb 0 b.cap && (b.len == 0)) ≡ false = elim z [
            | inl e ↦ ground (arith, e.0)
            | inr e ↦ ground (arith, e.0)
          ] in
          let begun = if_false _ _ f ∙ if_false _ _ readable in
          elim (Bool-cases (not (ltb 0 n))) [
            | inl t ↦ (
              _,
              begun ∙ if_true _ _ t,
              record {
                sized' = inl (refl, refl);
                now = λ p. freed_lem b s.mallocs p;
                mine = λ p y. absurd (true≢false (sym y));
                later = omega arith;
                given' = λ p y. absurd (true≢false (sym y));
                same_closing = refl;
                same_closed = refl;
              },
            )
            | inr u ↦
                let pos : 0 < n = ground (arith, u) in
                let kept : (n + 1023) % 2 ^ 64 ≡ n + 1023 = omega (arith, fits_int) in
                let size : dim_sz n ≡ n + 1023 - (n + 1023) % 1024 = ap (λ k. k - k % 1024) kept in
                let allocated : dim_sz n ≤ max_alloc = elim small [
                  | inl neg ↦ absurd (ground (arith, pos, neg))
                  | inr (_, most) ↦
                      subst (λ k. dim_sz k ≤ max_alloc)
                        (positive_lem (is_negative requested) requested pos) most
                ] in
                let nonneg : (is_negative (dim_sz n) || ltb max_alloc (dim_sz n)) ≡ false =
                  ground (arith, size, fits_int, allocated) in
                let rounded : dim_sz n % 1024 ≡ 0 = omega (arith, size) in
                let roomy : n ≤ dim_sz n = omega (arith, size) in
                let array : ltb 0 (dim_sz n) ≡ true = ground (arith, pos, roomy) in
                (
                  _,
                  begun ∙ if_false _ _ u ∙ if_false _ _ nonneg,
                  record {
                    sized' = inr (pos, roomy, rounded);
                    now = λ p.
                        lookup-insert s.next_ptr p tt
                          (if ltb 0 b.cap then delete b.ptr s.mallocs else s.mallocs)
                        ∙ ap (λ r. if s.next_ptr == p then some tt else r) (freed_lem b s.mallocs p)
                        ∙ ap
                            (λ t.
                              if t && (s.next_ptr == p)
                              then some tt
                              else (if has b p then none else lookup p s.mallocs))
                            (sym array);
                    mine = λ p y. inr (at_next p (dim_sz n) y);
                    later = omega arith;
                    given' = λ p y. omega (arith, is_next p (dim_sz n) y);
                    same_closing = refl;
                    same_closed = refl;
                  },
                )
          ]
    ]
  where
    positive_lem : (t : Bool) (k : ℕ) → 0 < (if t then 0 else k) → k ≡ (if t then 0 else k)
    positive_lem true k p = absurd (omega (arith, p))
    positive_lem false k p = refl

    is_next : (p d : ℕ) → (ltb 0 d && (s.next_ptr == p)) ≡ true → s.next_ptr ≡ p
    is_next p d y = ground (arith, y)

    at_next : (p d : ℕ) → (ltb 0 d && (s.next_ptr == p)) ≡ true → s.next_ptr ≤ p
    at_next p d y = omega (arith, is_next p d y)

-- The call is about one of the client's buffers, and its length is negative or can be rounded up to
-- what the runtime allocates.
abbrev pub IsCall : ℕ → ℕ → LibEvent → Type 0
IsCall max_alloc n closes = Unit {0}
IsCall max_alloc n (reallocs i requested) =
    (i < n)
    × ((is_negative requested ≡ true)
        ⊎ ((requested < 2 ^ 63 - 1023) × (dim_sz requested ≤ max_alloc)))

abbrev Steps : ℕ → Option Client → Type 0
Steps n r = (c : Client) × (r ≡ some c) × IsTracked c × (length c.buffers ≡ n)

close_lib-IsTracked :
    (c : Client) → IsTracked c → IsTracked (record c { session = close_lib c.session })
unfolding close_lib
close_lib-IsTracked c t = elim (Bool-cases (c.session.closed == 0)) [
  | inr f ↦
      subst (λ (s : LibSession). IsTracked (record c { session = s })) (sym (if_false _ _ f)) t
  | inl y ↦
      let was_open : c.session.closed ≡ 0 = (==_iff _ 0).0 y in
      subst (λ (s : LibSession). IsTracked (record c { session = s })) (sym (if_true _ _ y))
        (record {
          sized = t.sized;
          held = t.held;
          apart = t.apart;
          given = t.given;
          closed_once = (omega (arith, t.closed_once.0, was_open), omega arith);
        })
]

lib_step-IsTracked :
    (max_alloc n : ℕ) (e : LibEvent) (c : Client)
    → IsTracked c
    → length c.buffers ≡ n
    → IsCall max_alloc n e
    → Steps n (lib_step max_alloc e c)
unfolding lib_step
lib_step-IsTracked max_alloc n closes c t l h = (_, refl, close_lib-IsTracked c t, l)
lib_step-IsTracked max_alloc n (reallocs i requested) c t l h =
    let (b, at) = get_elem?_in c.buffers i (omega (arith, h.0, l)) in
    let ((b', s'), done, r) =
      realloc-IsReplaced max_alloc b requested c.session (t.sized i b at)
        (λ p y. (t.held p).1 (i, b, at, y)) t.given h.1 in
    (
      record { buffers = set c.buffers i b'; session = s' },
      ap found at ∙ ap out done,
      replaced-IsTracked c i b b' s' t at r,
      length-set c.buffers i b' ∙ l,
    )
  where
    out : Option (Buffer × LibSession) → Option Client
    out o = elim o [
      | none ↦ none
      | some (buf', s) ↦ some (record { buffers = set c.buffers i buf'; session = s })
    ]

    found : Option Buffer → Option Client
    found o = elim o [ none ↦ none | some buf ↦ out (realloc max_alloc buf requested c.session) ]

run_from :
    (max_alloc n : ℕ) (es : List LibEvent) (c : Client)
    → IsTracked c
    → length c.buffers ≡ n
    → All (IsCall max_alloc n) es
    → Steps n (lib_run max_alloc es c)
unfolding lib_run
run_from max_alloc n [] c t l h = (c, refl, t, l)
run_from max_alloc n (e ∷ es) c t l h =
    let (c', done, t', l') = lib_step-IsTracked max_alloc n e c t l h.0 in
    let (end, rest, t'', l'') = run_from max_alloc n es c' t' l' h.1 in
    (end, ap next done ∙ rest, t'', l'')
  where
    next : Option Client → Option Client
    next r = elim r [ none ↦ none | some c' ↦ lib_run max_alloc es c' ]

only_empty : (n i : ℕ) (b : Buffer) → get_elem? (replicate n no_buffer) i ≡ some b → no_buffer ≡ b
only_empty zero i b e = absurd (none-ne-some b e)
only_empty (suc n) zero b e = some-injective _ _ e
only_empty (suc n) (suc i) b e = only_empty n i b e

-- However a client with as many empty buffers calls Close, and Realloc for lengths that are negative
-- or that, rounded up to the next 1024, the runtime can allocate: no call panics, a buffer has room
-- for its length and as much as a multiple of 1024, the session keeps hold of exactly the arrays of
-- the client's buffers, no two buffers share one, and `closing` is closed at most once, exactly if
-- the session is marked closed.
pub lib_run-IsTracked :
    (max_alloc n : ℕ) (es : List LibEvent)
    → All (IsCall max_alloc n) es
    → (c : Client) × (lib_run max_alloc es (new_client (replicate n no_buffer)) ≡ some c)
      × IsTracked c
      × (length c.buffers ≡ n)
unfolding lookup
lib_run-IsTracked max_alloc n es h =
    run_from max_alloc n es (new_client (replicate n no_buffer))
      (record {
        sized = λ i b e. subst IsSized (only_empty n i b e) (inl (refl, refl));
        held = λ p. (
          λ e. absurd (none-ne-some tt e),
          λ (i, b, e, y).
              absurd (true≢false (sym y ∙ ap (λ z. has z p) (sym (only_empty n i b e)))),
        );
        apart = λ p i j a b e k y z.
            absurd (true≢false (sym y ∙ ap (λ w. has w p) (sym (only_empty n i a e))));
        given = λ p e. absurd (none-ne-some tt e);
        closed_once = (refl, omega arith);
      })
      (length_of_replicate n) h
  where
    length_of_replicate : (k : ℕ) → length (replicate k no_buffer) ≡ k
    length_of_replicate zero = omega arith
    length_of_replicate (suc k) = omega (arith, length_of_replicate k)
