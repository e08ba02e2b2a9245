-- ===== src/Host/LibService/Replacing.antt =====
-- What the replacement of one buffer by another leaves.
use mathlib.Core.Path.{subst}
use mathlib.Core.Bool.{true≢false}
use mathlib.Core.Option.{none-ne-some, some-injective}
use amp_host_go.Base.{
  ℕ, ◌%◌, ◌≤◌, ◌<◌, ◌≡◌, ◌≢◌, ◌⊎◌, ◌↔◌, sym, ap, ◌∙◌, Bool, true, ◌&&◌, none, some, List, ◌==◌, ltb,
  if◌then◌else◌, get_elem?, set, Bool-cases, if_true, if_false, ==_iff, inl, inr, arith,
}
use amp_host_go.Base.Elems.{get_elem?-set_ne, get_elem?-set_same}
use amp_host_go.Base.Assoc.{lookup}
use amp_host_go.Host.LibService.{Buffer, LibSession, Client}

-- The buffer has an array, at that address.
abbrev pub has : Buffer → ℕ → Bool
has b p = ltb 0 b.cap && (b.ptr == p)

abbrev pub IsSized : Buffer → Type 0
IsSized b = ((b.cap ≡ 0) × (b.len ≡ 0)) ⊎ ((0 < b.len) × (b.len ≤ b.cap) × (b.cap % 1024 ≡ 0))

abbrev pub Holds : Client → ℕ → Type 0
Holds c p = (i : ℕ) × (b : Buffer) × (get_elem? c.buffers i ≡ some b) × (has b p ≡ true)

pub record IsTracked (c : Client) : Type 0 where
  pub sized : (i : ℕ) (b : Buffer) → get_elem? c.buffers i ≡ some b → IsSized b
  pub held : (p : ℕ) → (lookup p c.session.mallocs ≡ some tt) ↔ Holds c p
  pub apart :
      (p i j : ℕ) (a b : Buffer)
      → get_elem? c.buffers i ≡ some a
      → get_elem? c.buffers j ≡ some b
      → has a p ≡ true
      → has b p ≡ true
      → i ≡ j
  pub given : (p : ℕ) → lookup p c.session.mallocs ≡ some tt → p < c.session.next_ptr
  pub closed_once : (c.session.closing ≡ c.session.closed) × (c.session.closed ≤ 1)

-- What a call leaves of its buffer and of the session.
pub record IsReplaced (s : LibSession) (b : Buffer) (b' : Buffer) (s' : LibSession) : Type 0 where
  pub sized' : IsSized b'
  pub now :
      (p : ℕ)
      → lookup p s'.mallocs
        ≡ (if has b' p then some tt else (if has b p then none else lookup p s.mallocs))
  pub mine : (p : ℕ) → has b' p ≡ true → (has b p ≡ true) ⊎ (s.next_ptr ≤ p)
  pub later : s.next_ptr ≤ s'.next_ptr
  pub given' : (p : ℕ) → has b' p ≡ true → p < s'.next_ptr
  pub same_closing : s'.closing ≡ s.closing
  pub same_closed : s'.closed ≡ s.closed

-- Which buffer is at a place after one was replaced.
replaced_at :
    (bufs : List Buffer) (i j : ℕ) (b b' x : Buffer)
    → get_elem? bufs i ≡ some b
    → get_elem? (set bufs i b') j ≡ some x
    → ((i ≡ j) × (b' ≡ x)) ⊎ ((i ≢ j) × (get_elem? bufs j ≡ some x))
replaced_at bufs i j b b' x at h = elim (Bool-cases (i == j)) [
  | inl t ↦
      let e : i ≡ j = (==_iff i j).0 t in
      inl (
        e,
        some-injective _ _
            (sym (get_elem?-set_same bufs i b b' at) ∙ ap (get_elem? (set bufs i b')) e ∙ h),
      )
  | inr f ↦
      let n : i ≢ j = λ e. true≢false (sym ((==_iff i j).1 e) ∙ f) in
      inr (n, sym (get_elem?-set_ne bufs i j b' n) ∙ h)
]

pub replaced-IsTracked :
    (c : Client) (i : ℕ) (b b' : Buffer) (s' : LibSession)
    → IsTracked c
    → get_elem? c.buffers i ≡ some b
    → IsReplaced c.session b b' s'
    → IsTracked (record { buffers = set c.buffers i b'; session = s' })
replaced-IsTracked c i b b' s' t at r = record {
  sized = λ j x h. elim (replaced_at c.buffers i j b b' x at h) [
    | inl (_, e) ↦ subst IsSized e r.sized'
    | inr (_, h') ↦ t.sized j x h'
  ];
  held = λ p. (holds p, is_held p);
  apart = λ p j k x y h h' f f'. elim (replaced_at c.buffers i j b b' x at h) [
    | inl (e, is_x) ↦ elim (replaced_at c.buffers i k b b' y at h') [
      | inl (e', _) ↦ sym e ∙ e'
      | inr (n, k') ↦ absurd (n (alone p k y (ap (λ z. has z p) is_x ∙ f) k' f'))
    ]
    | inr (n, j') ↦ elim (replaced_at c.buffers i k b b' y at h') [
      | inl (e', is_y) ↦ absurd (n (alone p j x (ap (λ z. has z p) is_y ∙ f') j' f))
      | inr (_, k') ↦ t.apart p j k x y j' k' f f'
    ]
  ];
  given = λ p h. elim (Bool-cases (has b' p)) [
    | inl y ↦ r.given' p y
    | inr n ↦ elim (Bool-cases (has b p)) [
      | inl y ↦ absurd (none-ne-some tt (sym (r.now p ∙ if_false _ _ n ∙ if_true _ _ y) ∙ h))
      | inr m ↦
          omega (arith, t.given p (sym (r.now p ∙ if_false _ _ n ∙ if_false _ _ m) ∙ h), r.later)
    ]
  ];
  closed_once = (
    r.same_closing ∙ t.closed_once.0 ∙ sym r.same_closed,
    omega (arith, t.closed_once.1, r.same_closed),
  );
}
  where
    -- no other buffer is where the new one is
    alone :
        (p k : ℕ) (y : Buffer)
        → has b' p ≡ true
        → get_elem? c.buffers k ≡ some y
        → has y p ≡ true
        → i ≡ k
    alone p k y f h g = elim (r.mine p f) [
      | inl old ↦ t.apart p i k b y at h old g
      | inr new ↦ absurd (omega (arith, new, t.given p ((t.held p).1 (k, y, h, g))))
    ]

    holds :
        (p : ℕ)
        → lookup p s'.mallocs ≡ some tt
        → Holds (record { buffers = set c.buffers i b'; session = s' }) p
    holds p h = elim (Bool-cases (has b' p)) [
      | inl y ↦ (i, b', get_elem?-set_same c.buffers i b b' at, y)
      | inr n ↦ elim (Bool-cases (has b p)) [
        | inl y ↦ absurd (none-ne-some tt (sym (r.now p ∙ if_false _ _ n ∙ if_true _ _ y) ∙ h))
        | inr m ↦
            let (j, x, h', f) =
              (t.held p).0 (sym (r.now p ∙ if_false _ _ n ∙ if_false _ _ m) ∙ h) in
            let other : i ≢ j = λ e. true≢false (
              sym (
                ap (λ z. has z p) (some-injective _ _ (sym at ∙ ap (get_elem? c.buffers) e ∙ h'))
                ∙ f)
              ∙ m) in
            (j, x, get_elem?-set_ne c.buffers i j b' other ∙ h', f)
      ]
    ]

    is_held :
        (p : ℕ)
        → Holds (record { buffers = set c.buffers i b'; session = s' }) p
        → lookup p s'.mallocs ≡ some tt
    is_held p (j, x, h, f) = elim (Bool-cases (has b' p)) [
      | inl y ↦ r.now p ∙ if_true _ _ y
      | inr n ↦ elim (replaced_at c.buffers i j b b' x at h) [
        | inl (_, is_x) ↦ absurd (true≢false (sym (ap (λ z. has z p) is_x ∙ f) ∙ n))
        | inr (other, h') ↦ elim (Bool-cases (has b p)) [
          | inl y ↦ absurd (other (t.apart p i j b x at h' y f))
          | inr m ↦ r.now p ∙ if_false _ _ n ∙ if_false _ _ m ∙ (t.held p).1 (j, x, h', f)
        ]
      ]
    ]
