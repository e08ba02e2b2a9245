-- ===== src/Host/Session/Closing/Shutdown.antt =====
-- What remains of the open requests when the session closes.
use mathlib.Core.Path.{subst}
use mathlib.Core.Option
use mathlib.Core.Option.{none-ne-some, some-injective}
use mathlib.Core.List.{append-nil, append_assoc}
use amp_host_go.Base.{
  ℕ, ◌≡◌, refl, sym, ap, ◌∙◌, Bool, true, false, Option, some, none, List, [], ◌∷◌, ◌++◌, map,
  arith, All, All-map, get_elem?, any, ◌==◌, if◌then◌else◌, if_true, Option-cases, inl, inr, ==_iff,
}
use amp_host_go.Base.Assoc.{lookup, delete, delete-absent, All-lookup, IsDistinct}
use amp_host_go.Host.Session.{ErrCode, shutting_down, CloseAttr, ClientOp, Session, update_op}
use amp_host_go.Host.Session.Closing.{close_op, close_each, close_all_reqs}
use amp_host_go.Host.Session.Closing.Laws.{
  IsConsistent, IsOpenAt, ended_op, get_elem?-update_op, close_op-open, close_op-absent,
  close_op-IsConsistent,
}

-- The attributes that closing each listed ID sends.
abbrev pub shutting_down_attrs : List (ℕ × ℕ) → List CloseAttr
shutting_down_attrs = map (λ e. record { req_id = e.0; reason = some shutting_down })

delete_first :
    (id i : ℕ) (rest : List (ℕ × ℕ))
    → lookup id rest ≡ none
    → (lookup id ((id, i) ∷ rest) ≡ some i) × (delete id ((id, i) ∷ rest) ≡ rest)
unfolding lookup delete
delete_first id i rest e = ground (arith, delete-absent id rest e)

-- The request of an entry was marked closed and cancelled, its message was released, the rest of it
-- stayed, and its pin was told to close.
pub record IsEnded (s t : Session) (e : ℕ × ℕ) : Type 0 where
  pub op : ClientOp
  pub was : get_elem? s.ops e.1 ≡ some op
  pub ended : get_elem? t.ops e.1 ≡ some (ended_op op)
  pub unpinned : (p : ℕ) → op.pin ≡ some p → any (λ q. q == p) t.closing_pins ≡ true

-- Nothing is left open, and each request was ended and told once.
pub record IsShutDown (s : Session) (m : List (ℕ × ℕ)) (t : Session) : Type 0 where
  pub consistent : IsConsistent t
  pub none_open : t.open_ops ≡ []
  pub told : t.meta_calls ≡ s.meta_calls ++ shutting_down_attrs m
  pub all_ended : All (IsEnded s t) m

-- What the closing of one request leaves of the requests ended and the pins closed before.
module _ (s : Session) (id : ℕ) (reason : Option ErrCode) (v : IsConsistent s) where
  close_op-ended :
      (j : ℕ) (op : ClientOp)
      → get_elem? s.ops j ≡ some (ended_op op)
      → get_elem? (close_op id reason true s).ops j ≡ some (ended_op op)
  close_op-ended j op h = elim (Option-cases (lookup id s.open_ops)) [
    | inl e ↦ rw (close_op-absent s id reason true e) h
    | inr (i, e) ↦
        let (n, (o, g, d, c)) = All-lookup (IsOpenAt s.ops) id i s.open_ops v.opened e in
        ap (λ t. get_elem? t.ops j) (close_op-open s id i o reason true v e g)
        ∙ get_elem?-update_op s.ops i j ended_op
        ∙ twice (i == j) (get_elem? s.ops j) h
  ]
    where
      twice :
          (t : Bool) (x : Option ClientOp)
          → x ≡ some (ended_op op)
          → (if t then Option.map ended_op x else x) ≡ some (ended_op op)
      twice true x h = ap (Option.map ended_op) h
      twice false x h = h

  close_op-pins :
      (p : ℕ)
      → any (λ q. q == p) s.closing_pins ≡ true
      → any (λ q. q == p) (close_op id reason true s).closing_pins ≡ true
  close_op-pins p h = elim (Option-cases (lookup id s.open_ops)) [
    | inl e ↦ rw (close_op-absent s id reason true e) h
    | inr (i, e) ↦
        let (n, (o, g, d, c)) = All-lookup (IsOpenAt s.ops) id i s.open_ops v.opened e in
        ap (λ t. any (λ q. q == p) t.closing_pins) (close_op-open s id i o reason true v e g)
        ∙ more o.pin
  ]
    where
      more :
          (o : Option ℕ)
          → any (λ q. q == p) (elim o [ none ↦ s.closing_pins | some pin ↦ pin ∷ s.closing_pins ])
            ≡ true
      more none = h
      more (some pin) = ground (arith, h)

close_each-ended :
    (ids : List ℕ) (s : Session) (j : ℕ) (op : ClientOp)
    → IsConsistent s
    → get_elem? s.ops j ≡ some (ended_op op)
    → get_elem? (close_each ids s).ops j ≡ some (ended_op op)
close_each-ended [] s j op v h = h
close_each-ended (id ∷ ids) s j op v h =
    close_each-ended ids (close_op id (some shutting_down) true s) j op
      (close_op-IsConsistent s id (some shutting_down) true v)
      (close_op-ended s id (some shutting_down) v j op h)

close_each-pins :
    (ids : List ℕ) (s : Session) (p : ℕ)
    → IsConsistent s
    → any (λ q. q == p) s.closing_pins ≡ true
    → any (λ q. q == p) (close_each ids s).closing_pins ≡ true
close_each-pins [] s p v h = h
close_each-pins (id ∷ ids) s p v h =
    close_each-pins ids (close_op id (some shutting_down) true s) p
      (close_op-IsConsistent s id (some shutting_down) true v)
      (close_op-pins s id (some shutting_down) v p h)

-- A request that the session had after one closing, seen from before it.
IsEnded-before :
    (s u t : Session) (i : ℕ) (e : ℕ × ℕ)
    → u.ops ≡ update_op s.ops i ended_op
    → IsEnded u t e
    → IsEnded s t e
IsEnded-before s u t i e q h =
    let at = sym (ap (λ l. get_elem? l e.1) q ∙ get_elem?-update_op s.ops i e.1 ended_op) ∙ h.was in
    elim (Option-cases (get_elem? s.ops e.1)) [
      | inl f ↦
          absurd
            (none-ne-some h.op (sym (missing (i == e.1)) ∙ ap (chosen (i == e.1)) (sym f) ∙ at))
      | inr (op, f) ↦
          let (same, pin_same) = kept (i == e.1) op (ap (chosen (i == e.1)) (sym f) ∙ at) in
          record {
            op = op;
            was = f;
            ended = h.ended ∙ ap some same;
            unpinned = λ p k. h.unpinned p (pin_same ∙ k);
          }
    ]
  where
    chosen : Bool → Option ClientOp → Option ClientOp
    chosen b x = if b then Option.map ended_op x else x

    missing : (b : Bool) → chosen b none ≡ none
    missing true = refl
    missing false = refl

    kept :
        (b : Bool) (op : ClientOp)
        → chosen b (some op) ≡ some h.op
        → (ended_op h.op ≡ ended_op op) × (h.op.pin ≡ op.pin)
    kept true op k = let r = sym (some-injective _ _ k) in (ap ended_op r, ap (λ o. o.pin) r)
    kept false op k = let r = sym (some-injective _ _ k) in (ap ended_op r, ap (λ o. o.pin) r)

close_each-IsShutDown :
    (m : List (ℕ × ℕ)) (s : Session)
    → IsConsistent s
    → s.open_ops ≡ m
    → IsShutDown s m (close_each (map (λ e. e.0) m) s)
close_each-IsShutDown [] s v e = record {
  consistent = v;
  none_open = e;
  told = sym (append-nil s.meta_calls);
  all_ended = tt;
}
close_each-IsShutDown ((id, i) ∷ rest) s v e =
    let absent : lookup id rest ≡ none = (subst IsDistinct e v.distinct).0 in
    let (hit, left) = delete_first id i rest absent in
    let found : lookup id s.open_ops ≡ some i = ap (lookup id) e ∙ hit in
    let (n, (op, g, d, c)) = All-lookup (IsOpenAt s.ops) id i s.open_ops v.opened found in
    let step = close_op-open s id i op (some shutting_down) true v found g in
    let next = close_op-IsConsistent s id (some shutting_down) true v in
    let s' = close_op id (some shutting_down) true s in
    let h =
      close_each-IsShutDown rest s' next (ap (λ t. t.open_ops) step ∙ ap (delete id) e ∙ left) in
    let changed : s'.ops ≡ update_op s.ops i ended_op = ap (λ t. t.ops) step in
    record {
      consistent = h.consistent;
      none_open = h.none_open;
      told =
          h.told
          ∙ ap (λ t. t.meta_calls ++ shutting_down_attrs rest) step
          ∙ append_assoc s.meta_calls _ _;
      all_ended = (
        record {
          op = op;
          was = g;
          ended = close_each-ended (map (λ e. e.0) rest) s' i op next (
              ap (λ l. get_elem? l i) changed
              ∙ get_elem?-update_op s.ops i i ended_op
              ∙ if_true _ _ ((==_iff i i).1 refl)
              ∙ ap (Option.map ended_op) g);
          unpinned = λ p k. close_each-pins (map (λ e. e.0) rest) s' p next (
              ap (λ t. any (λ q. q == p) t.closing_pins) step
              ∙ ap (λ o. any (λ q. q == p) (pins_with o s.closing_pins)) k
              ∙ if_true_head p s.closing_pins);
        },
        All-map _ _ rest (λ f. IsEnded-before s s' _ i f changed) h.all_ended,
      );
    }
  where
    pins_with : Option ℕ → List ℕ → List ℕ
    pins_with o l = elim o [ none ↦ l | some pin ↦ pin ∷ l ]

    if_true_head : (p : ℕ) (l : List ℕ) → any (λ q. q == p) (p ∷ l) ≡ true
    if_true_head p l = ground arith

-- When a consistent session closes its requests, with nothing else in between: no request stays
-- open; each request that was open is marked closed, cancelled, keeps no message, and its pin is
-- told to close; SendMetaAttr is called exactly once for each, with the code for shutting down;
-- and the session stays consistent.
pub close_all_reqs-IsShutDown :
    (s : Session) → IsConsistent s → IsShutDown s s.open_ops (close_all_reqs s)
unfolding close_all_reqs
close_all_reqs-IsShutDown s v = close_each-IsShutDown s.open_ops s v refl
