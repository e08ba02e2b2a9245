-- ===== src/Host/Session/Closing/Laws.antt =====
-- The bookkeeping of open requests, and what closing a request does to it.
use mathlib.Core.Option
use mathlib.Core.Option.{some-injective}
use amp_host_go.Base.{
  ℕ, zero, suc, ◌≡◌, ◌≢◌, refl, sym, ap, ◌∙◌, Bool, true, false, Option, none, some, List, [], ◌∷◌,
  ◌++◌, ◌==◌, if◌then◌else◌, arith, get_elem?, All, All-map, Bool-cases, Option-cases, inl, inr,
  ==_iff,
}
use amp_host_go.Base.Assoc.{
  lookup, delete, lookup-delete, IsDistinct, IsDistinct-delete, All-lookup, delete-ne,
  delete-absent,
}
use amp_host_go.Host.Session.{ErrCode, ClientOp, Session, update_op}
use amp_host_go.Host.Session.Closing.{close_op}

pub get_elem?-update_op :
    (ops : List ClientOp) (i j : ℕ) (f : ClientOp → ClientOp)
    → get_elem? (update_op ops i f) j
      ≡ (if i == j then Option.map f (get_elem? ops j) else get_elem? ops j)
get_elem?-update_op [] i j f = ground arith
get_elem?-update_op (op ∷ ops) zero zero f = refl
get_elem?-update_op (op ∷ ops) zero (suc j) f = ground arith
get_elem?-update_op (op ∷ ops) (suc i) zero f = ground arith
get_elem?-update_op (op ∷ ops) (suc i) (suc j) f = ground (arith, get_elem?-update_op ops i j f)

-- An entry of openOps names a request of that ID that is not closed.
abbrev pub IsOpenAt : List ClientOp → ℕ × ℕ → Type 0
IsOpenAt ops e =
    (e.0 ≢ 0)
    × ((op : ClientOp) × (get_elem? ops e.1 ≡ some op) × (op.id ≡ e.0) × (op.was_closed ≡ false))

pub record IsConsistent (s : Session) : Type 0 where
  pub distinct : IsDistinct s.open_ops
  pub opened : All (IsOpenAt s.ops) s.open_ops
  -- closeOp marks a request as closed before it cancels it
  pub ended : All (λ op. op.cancelled ≡ true → op.was_closed ≡ true) s.ops

-- The change leaves alone what the invariant speaks of.
abbrev pub Keeps : (ClientOp → ClientOp) → Type 0
Keeps f =
    (op : ClientOp)
    → ((f op).id ≡ op.id) × ((f op).was_closed ≡ op.was_closed) × ((f op).cancelled ≡ op.cancelled)

IsOpenAt-update_op :
    (ops : List ClientOp) (i : ℕ) (f : ClientOp → ClientOp) (e : ℕ × ℕ)
    → Keeps f
    → IsOpenAt ops e
    → IsOpenAt (update_op ops i f) e
IsOpenAt-update_op ops i f e k (n, (op, g, d, c)) = elim (Bool-cases (i == e.1)) [
  | inl t ↦ (n, (f op, rw (get_elem?-update_op ops i e.1 f, t, g) refl, (k op).0 ∙ d, (k op).1 ∙ c))
  | inr u ↦ (n, (op, rw (get_elem?-update_op ops i e.1 f, u) g, d, c))
]

All-update_op :
    (P : ClientOp → Type 0) (ops : List ClientOp) (i : ℕ) (f : ClientOp → ClientOp)
    → ((op : ClientOp) → P op → P (f op))
    → All P ops
    → All P (update_op ops i f)
All-update_op P [] i f k a = tt
All-update_op P (op ∷ ops) zero f k a = (k op a.0, a.1)
All-update_op P (op ∷ ops) (suc i) f k a = (a.0, All-update_op P ops i f k a.1)

pub update-IsConsistent :
    (s t : Session) (i : ℕ) (f : ClientOp → ClientOp)
    → Keeps f
    → t.open_ops ≡ s.open_ops
    → t.ops ≡ update_op s.ops i f
    → IsConsistent s
    → IsConsistent t
update-IsConsistent s t i f k o p v = record {
  distinct = rw o v.distinct;
  opened = rw (o, p) (All-map _ _ s.open_ops (λ e. IsOpenAt-update_op s.ops i f e k) v.opened);
  ended = rw p (All-update_op _ s.ops i f (λ op h. λ e. (k op).1 ∙ h (sym (k op).2 ∙ e)) v.ended);
}

-- The request at `i`, once closed.
abbrev pub ended_op : ClientOp → ClientOp
ended_op op = record op { was_closed = true; cancelled = true; has_commit_tx = false }

abbrev pub close_pin : ClientOp → List ℕ → List ℕ
close_pin op pins = elim op.pin [ none ↦ pins | some pin ↦ pin ∷ pins ]

-- The session after its open request `req_id`, which stands at `i`, was closed.
abbrev pub closed_session : Session → ℕ → ℕ → ClientOp → Option ErrCode → Bool → Session
closed_session s req_id i op reason sends = record s {
  open_ops = delete req_id s.open_ops;
  ops = update_op s.ops i ended_op;
  closing_pins = close_pin op s.closing_pins;
  meta_calls =
      if sends
      then s.meta_calls ++ record { req_id = req_id; reason = reason } ∷ []
      else s.meta_calls;
}

update_op-update_op :
    (ops : List ClientOp) (i : ℕ) (f g : ClientOp → ClientOp)
    → update_op (update_op ops i f) i g ≡ update_op ops i (λ o. g (f o))
update_op-update_op [] i f g = refl
update_op-update_op (op ∷ ops) zero f g = refl
update_op-update_op (op ∷ ops) (suc i) f g = ap (λ l. op ∷ l) (update_op-update_op ops i f g)

-- Closing an open request of a consistent session takes it out of the open requests, marks it
-- closed and cancelled, releases its message, closes its pin, and sends one closing attribute if
-- it was asked to; nothing else changes.
pub close_op-open :
    (s : Session) (req_id i : ℕ) (op : ClientOp) (reason : Option ErrCode) (sends : Bool)
    → IsConsistent s
    → lookup req_id s.open_ops ≡ some i
    → get_elem? s.ops i ≡ some op
    → close_op req_id reason sends s ≡ closed_session s req_id i op reason sends
unfolding close_op
close_op-open s req_id i op reason sends v e g =
    let (n, (op', g', d, c)) = All-lookup (IsOpenAt s.ops) req_id i s.open_ops v.opened e in
    let same : op ≡ op' = some-injective _ _ (sym g ∙ g') in
    let not_yet : op.was_closed ≡ false = ap (λ o. o.was_closed) same ∙ c in
    let is_set : (req_id == 0) ≡ false = ground arith in
    let twice =
      update_op-update_op s.ops i (λ o. record o { was_closed = true })
        (λ o. record o { cancelled = true; has_commit_tx = false }) in
    let phases : close_op req_id reason sends s
        ≡ record (closed_session s req_id i op reason sends) {
          ops =
              update_op (update_op s.ops i (λ o. record o { was_closed = true })) i
                (λ o. record o { cancelled = true; has_commit_tx = false });
        } =
      ground arith in
    phases ∙ ap (λ l. record (closed_session s req_id i op reason sends) { ops = l }) twice

-- Closing a request that is not open changes nothing.
pub close_op-absent :
    (s : Session) (req_id : ℕ) (reason : Option ErrCode) (sends : Bool)
    → lookup req_id s.open_ops ≡ none
    → close_op req_id reason sends s ≡ s
unfolding close_op
close_op-absent s req_id reason sends e = ground (arith, delete-absent req_id s.open_ops e)

IsOpenAt-ended :
    (ops : List ClientOp) (i : ℕ) (op : ClientOp) (e : ℕ × ℕ)
    → get_elem? ops i ≡ some op
    → e.0 ≢ op.id
    → IsOpenAt ops e
    → IsOpenAt (update_op ops i ended_op) e
IsOpenAt-ended ops i op e g n (z, (o, h, d, c)) = elim (Bool-cases (i == e.1)) [
  | inl t ↦
      let same : o ≡ op =
        some-injective _ _ (sym h ∙ ap (get_elem? ops) (sym ((==_iff i e.1).0 t)) ∙ g) in
      absurd (n (sym d ∙ ap (λ q. q.id) same))
  | inr u ↦ (z, (o, rw (get_elem?-update_op ops i e.1 ended_op, u) h, d, c))
]

closed_session-IsConsistent :
    (s : Session) (req_id i : ℕ) (op : ClientOp) (reason : Option ErrCode) (sends : Bool)
    → IsConsistent s
    → get_elem? s.ops i ≡ some op
    → op.id ≡ req_id
    → IsConsistent (closed_session s req_id i op reason sends)
closed_session-IsConsistent s req_id i op reason sends v g d = record {
  distinct = IsDistinct-delete req_id s.open_ops v.distinct;
  opened =
      delete-ne (IsOpenAt (update_op s.ops i ended_op)) req_id s.open_ops (
        All-map _ _ s.open_ops (λ e o n. IsOpenAt-ended s.ops i op e g (λ q. n (q ∙ d)) o)
          v.opened);
  ended = All-update_op _ s.ops i ended_op (λ o h. λ e. refl) v.ended;
}

-- Closing keeps the bookkeeping consistent, whatever the ID.
pub close_op-IsConsistent :
    (s : Session) (req_id : ℕ) (reason : Option ErrCode) (sends : Bool)
    → IsConsistent s
    → IsConsistent (close_op req_id reason sends s)
close_op-IsConsistent s req_id reason sends v = elim (Option-cases (lookup req_id s.open_ops)) [
  | inl e ↦ rw (close_op-absent s req_id reason sends e) v
  | inr (i, e) ↦
      let (n, (op, g, d, c)) = All-lookup (IsOpenAt s.ops) req_id i s.open_ops v.opened e in
      rw (close_op-open s req_id i op reason sends v e g)
        (closed_session-IsConsistent s req_id i op reason sends v g d)
]

-- Closing takes exactly the one ID out of the open requests.
pub lookup-close_op :
    (s : Session) (req_id j : ℕ) (reason : Option ErrCode) (sends : Bool)
    → IsConsistent s
    → lookup j (close_op req_id reason sends s).open_ops
      ≡ (if req_id == j then none else lookup j s.open_ops)
lookup-close_op s req_id j reason sends v = elim (Option-cases (lookup req_id s.open_ops)) [
  | inl e ↦ rw (close_op-absent s req_id reason sends e) (ground (arith, ==_iff req_id j))
  | inr (i, e) ↦
      let (n, (op, g, d, c)) = All-lookup (IsOpenAt s.ops) req_id i s.open_ops v.opened e in
      rw (close_op-open s req_id i op reason sends v e g) (lookup-delete req_id j s.open_ops)
]
