-- ===== src/Payment/Settles.antt =====
-- Lemmas on the handlers of server/controllers/payment/controller.py and the order of the payment
-- tables.
use debt_collector.Common.{
  ℕ, ◌+◌, ◌<◌, ◌≡◌, refl, sym, ◌∙◌, true, not-false, Option, none, some, arith, ◌is◌, String, subst,
  some_inj,
}
use debt_collector.Common.Table.{find_row, put_row, find_row-put_row_self}
use debt_collector.Model.{
  Db, User, Action, Done, PaymentDeclaration, AllocationTargetType, PaymentCategory, PaymentStatus,
  payment_status_enum, NotificationType, Published, ◌>>=◌,
}
use debt_collector.Model.Leaves.{
  Leaves, Leaves-bind, Leaves-gets, Leaves-or_raise, Leaves-raise_if, Leaves-modify,
  Leaves-fresh_id, Leaves-now_utc, Leaves-assoc, Leaves-pure_bind, Leaves-pure, Leaves-last,
}
use debt_collector.Model.Keeps.{Keeps, keep_rules, Keeps-pure}
use debt_collector.Session.{notify, publish_event}
use debt_collector.Session.Leaves.{Leaves-goddess, Leaves-goddess_user}
use debt_collector.Session.Allocation.{create_allocation}
use debt_collector.Payment.Rules.{
  allocation_target, get_declaration_or_404, to_out, check_category_for_sub, check_rolling_active,
  get_method_for_goddess,
}
use debt_collector.Payment.Effects.{emit_allocation_to, apply_category}
use debt_collector.Payment.Declare.{
  DeclarePaymentIn, EditDeclarationIn, save_declaration, announce_declaration, declare_as_sub,
  record_as_goddess, check_patch_category, check_patch_method, own_pending, apply_patch,
  edit_pending_as_sub, cancel_pending_as_sub,
}
use debt_collector.Payment.Review.{reviewed, validate, reject}
use debt_collector.Payment.Invariant.{is_pending}
use debt_collector.Payment.Writes.{
  PaymentsOk-fresh, PaymentsOk-write, PaymentsOk-allocate, DeclarationsForward-put,
}
use debt_collector.Payment.Frame.{
  Settled, notify-Keeps, publish-Keeps, to_out-Keeps, category-Keeps,
}

module _ {B : Type 0} {P : B → Db → Type 0} where
  Leaves-declaration :
      (i : ℕ) (k : PaymentDeclaration → Action B) (db : Db)
      → ((d : PaymentDeclaration) → find_row i db.declarations ≡ some d → Leaves P (k d db))
      → Leaves P ((get_declaration_or_404 i >>= k) db)
  unfolding get_declaration_or_404
  Leaves-declaration i k db h =
      Leaves-assoc _ _ k db (Leaves-gets _ _ db (Leaves-or_raise _ _ k db h))

  Leaves-own_pending :
      (u : User) (i : ℕ) (k : PaymentDeclaration → Action B) (db : Db)
      → ((d : PaymentDeclaration)
          → find_row i db.declarations ≡ some d
          → is_pending d ≡ true
          → Leaves P (k d db))
      → Leaves P ((own_pending u i >>= k) db)
  unfolding own_pending
  Leaves-own_pending u i k db h = Leaves-assoc _ _ k db (
      Leaves-declaration i _ db λ d at. Leaves-assoc _ _ k db (
        Leaves-raise_if _ _ _ db λ own. Leaves-assoc _ _ k db (
          Leaves-raise_if _ _ _ db
            λ pending. Leaves-pure_bind d k db (h d at (not-false _ pending)))))

  Leaves-reviewed :
      (u : User) (i : ℕ) (k : PaymentDeclaration → Action B) (db : Db)
      → ((d : PaymentDeclaration)
          → find_row i db.declarations ≡ some d
          → is_pending d ≡ true
          → Leaves P (k d db))
      → Leaves P ((reviewed u i >>= k) db)
  unfolding reviewed
  Leaves-reviewed u i k db h = Leaves-assoc _ _ k db (
      Leaves-goddess _ _ db λ g is_hers. Leaves-assoc _ _ k db (
        Leaves-declaration i _ db λ d at. Leaves-assoc _ _ k db (
          Leaves-raise_if _ _ _ db λ own. Leaves-assoc _ _ k db (
            Leaves-raise_if _ _ _ db
              λ pending. Leaves-pure_bind d k db (h d at (not-false _ pending))))))

  Leaves-save :
      (d : PaymentDeclaration) (k : Done → Action B) (db : Db)
      → Leaves P (k tt (record db { declarations = put_row d.id d db.declarations }))
      → Leaves P ((save_declaration d >>= k) db)
  unfolding save_declaration
  Leaves-save d k db h = Leaves-modify _ k db h

  -- A check that writes nothing.
  Leaves-check :
      (m : Action Done) (k : Done → Action B) (db : Db)
      → Keeps (λ d. d ≡ db) m
      → Leaves P (k tt db)
      → Leaves P ((m >>= k) db)
  Leaves-check m k db read h =
      Leaves-bind (λ _ d. d ≡ db) m k db (read.keeps db refl)
        λ a d e same. subst (λ x. Leaves P (k a x)) (sym same) h

module _ (db : Db) where
  category-reads :
      (u : User) (c : PaymentCategory) → Keeps (λ d. d ≡ db) (check_category_for_sub u c)
  unfolding check_category_for_sub
  category-reads u c = search (keep_rules)

  rolling-reads : (c : PaymentCategory) (s : ℕ) → Keeps (λ d. d ≡ db) (check_rolling_active c s)
  unfolding check_rolling_active
  rolling-reads c s = search (keep_rules)

  method-reads : (g i : ℕ) → Keeps (λ d. d ≡ db) (get_method_for_goddess g i)
  unfolding get_method_for_goddess
  method-reads g i = search (keep_rules)

  patch_category-reads :
      (u : User) (o : Option PaymentCategory) → Keeps (λ d. d ≡ db) (check_patch_category u o)
  unfolding check_patch_category
  patch_category-reads u none = Keeps-pure tt
  patch_category-reads u (some c) = search (keep_rules, category-reads, rolling-reads)

  patch_method-reads : (u : User) (o : Option ℕ) → Keeps (λ d. d ≡ db) (check_patch_method u o)
  unfolding check_patch_method
  patch_method-reads u none = Keeps-pure tt
  patch_method-reads u (some i) = search (keep_rules, method-reads)

-- A validated declaration gets its allocation.
emit_allocation-Settled :
    (db0 db : Db) (decl : PaymentDeclaration) (o : Option AllocationTargetType)
    → allocation_target decl.category ≡ o
    → Settled db0 db
    → find_row decl.id db.declarations ≡ some decl
    → (decl.status is PaymentStatus.validated) ≡ true
    → Leaves (λ _. Settled db0) (emit_allocation_to o decl db)
unfolding emit_allocation_to create_allocation
emit_allocation-Settled db0 db decl none target e found valid = Leaves-pure tt db e
emit_allocation-Settled db0 db decl (some t) target e found valid = Leaves-last _ db (
    Leaves-assoc _ _ _ db (
      Leaves-gets _ _ db (
        Leaves-assoc _ _ _ db (
          Leaves-raise_if _ _ _ db λ free.
            Leaves-modify _ _ db
              (Leaves-pure tt _ (PaymentsOk-allocate e.0 decl t found valid target free, e.1))))))

-- A pending declaration is written back, with the same sub.
saved :
    (db : Db) (i : ℕ) (old new : PaymentDeclaration)
    → Settled db db
    → find_row i db.declarations ≡ some old
    → is_pending old ≡ true
    → new.id ≡ old.id
    → new.sub_id ≡ old.sub_id
    → Settled db (record db { declarations = put_row new.id new db.declarations })
saved db i old new e found pending id sub = (
  PaymentsOk-write e.0 new.id new
      (subst (λ (j : ℕ). j < db.next_id) (sym at_i) (e.0.known i old found).1) refl
      (λ x at. subst (λ y. is_pending y ≡ true) (was x at) pending),
  DeclarationsForward-put db.declarations new.id new λ x at. (
    subst (λ y. is_pending y ≡ true) (was x at) pending,
    subst (λ (y : PaymentDeclaration). new.sub_id ≡ y.sub_id) (was x at) sub,
  ),
)
  where
    at_i : new.id ≡ i
    at_i = id ∙ (e.0.known i old found).0

    was : (x : PaymentDeclaration) → find_row new.id db.declarations ≡ some x → old ≡ x
    was x at = some_inj (sym found ∙ subst (λ (j : ℕ). find_row j db.declarations ≡ some x) at_i at)

-- A declaration is added under a new id.
added :
    (db : Db) (new : PaymentDeclaration)
    → Settled db db
    → new.id ≡ db.next_id
    → Settled db
        (record db { next_id = db.next_id + 1; declarations = put_row new.id new db.declarations })
added db new e id = (
  PaymentsOk-write (PaymentsOk-fresh e.0 (db.next_id + 1) (omega arith)) new.id new
      (omega (arith, id)) refl (λ x at. absurd (unknown x at)),
  DeclarationsForward-put db.declarations new.id new λ x at. absurd (unknown x at),
)
  where
    unknown : (x : PaymentDeclaration) → find_row new.id db.declarations ≡ some x → ⊥
    unknown x at = omega (arith, id, (e.0.known new.id x at).1)

announce-Keeps : (db0 : Db) (o : Option ℕ) (i : ℕ) → Keeps (Settled db0) (announce_declaration o i)
unfolding announce_declaration
announce-Keeps db0 none i = Keeps-pure tt
announce-Keeps db0 (some u) i = search (keep_rules, notify-Keeps, publish-Keeps)

-- A sub's declaration.
pub declare_as_sub-Settled :
    (u : User) (payload : DeclarePaymentIn) (db : Db)
    → Settled db db
    → Leaves (λ _. Settled db) (declare_as_sub u payload db)
unfolding declare_as_sub
declare_as_sub-Settled u payload db e = Leaves-check _ _ db (category-reads db _ _) (
    Leaves-check _ _ db (rolling-reads db _ _) (
      Leaves-or_raise _ _ _ db λ g at. Leaves-check _ _ db (method-reads db _ _) (
        Leaves-fresh_id _ db (
          Leaves-now_utc _ _ (
            Leaves-save _ _ _ (
              Leaves-goddess_user _ _ _ λ o.
                Leaves-bind (λ _. Settled db) _ _ _
                  ((announce-Keeps db o _).keeps _ (added db _ e refl))
                  λ x d done e'. (to_out-Keeps db _).keeps d e'))))))

-- A goddess's record of a payment.
pub record_as_goddess-Settled :
    (u : User) (sub_id : ℕ) (payload : DeclarePaymentIn) (db : Db)
    → Settled db db
    → Leaves (λ _. Settled db) (record_as_goddess u sub_id payload db)
unfolding record_as_goddess
record_as_goddess-Settled u sub_id payload db e = Leaves-goddess _ _ db λ g at. Leaves-gets _ _ db (
    Leaves-or_raise _ _ _ db λ s found. Leaves-check _ _ db (category-reads db _ _) (
      Leaves-check _ _ db (rolling-reads db _ _) (
        Leaves-check _ _ db (method-reads db _ _) (
          Leaves-now_utc _ db (
            Leaves-fresh_id _ db (
              Leaves-save _ _ _ (
                Leaves-bind (λ _. Settled db) _ _ _
                  (emit_allocation-Settled db _ _ _ refl (added db _ e refl)
                    (find_row-put_row_self _ _ db.declarations) refl)
                  λ x d done e'. (rest s _ _ _).keeps d e')))))))
  where
    rest :
        (s : User) (decl : PaymentDeclaration) (c : PaymentCategory) (now : ℕ)
        → Keeps (Settled db) (apply_category decl c s u.id now >>= λ _. to_out decl)
    rest s decl c now = search (keep_rules, category-Keeps, to_out-Keeps)

-- An edit.
pub edit_pending_as_sub-Settled :
    (u : User) (i : ℕ) (patch : EditDeclarationIn) (db : Db)
    → Settled db db
    → Leaves (λ _. Settled db) (edit_pending_as_sub u i patch db)
unfolding edit_pending_as_sub
edit_pending_as_sub-Settled u i patch db e = Leaves-own_pending u i _ db λ d at pending.
    Leaves-check _ _ db (patch_category-reads db _ _) (
      Leaves-check _ _ db (patch_method-reads db _ _) (
        Leaves-save _ _ _ (
          (to_out-Keeps db _).keeps _ (saved db i d (apply_patch patch d) e at pending refl refl))))

-- A cancellation.
pub cancel_pending_as_sub-Settled :
    (u : User) (i : ℕ) (db : Db)
    → Settled db db
    → Leaves (λ _. Settled db) (cancel_pending_as_sub u i db)
unfolding cancel_pending_as_sub
cancel_pending_as_sub-Settled u i db e = Leaves-own_pending u i _ db λ d at pending.
    Leaves-now_utc _ db (
      Leaves-last _ _
        (Leaves-save _ _ _ (Leaves-pure tt _ (saved db i d _ e at pending refl refl))))

-- A validation.
pub validate-Settled :
    (u : User) (i : ℕ) (o : Option PaymentCategory) (db : Db)
    → Settled db db
    → Leaves (λ _. Settled db) (validate u i o db)
unfolding validate
validate-Settled u i o db e = Leaves-reviewed u i _ db λ d at pending. Leaves-gets _ _ db (
    Leaves-or_raise _ _ _ db λ s found. Leaves-check _ _ db (category-reads db _ _) (
      Leaves-check _ _ db (rolling-reads db _ _) (
        Leaves-now_utc _ db (
          Leaves-save _ _ _ (
            Leaves-bind (λ _. Settled db) _ _ _
              (emit_allocation-Settled db _ _ _ refl (saved db i d _ e at pending refl refl)
                (find_row-put_row_self _ _ db.declarations) refl)
              λ x d' done e'. (rest s _ _ _ _ _).keeps d' e')))))
  where
    rest :
        (s : User) (decl : PaymentDeclaration) (c : PaymentCategory) (now sub_id id : ℕ)
        → Keeps (Settled db) (
            apply_category decl c s u.id now >>= λ _.
            notify sub_id NotificationType.payment_validated id >>= λ _.
            publish_event (Published.validation_resolved sub_id id) >>= λ _. to_out decl)
    rest s decl c now sub_id id =
        search (keep_rules, category-Keeps, to_out-Keeps, notify-Keeps, publish-Keeps) depth 15

-- A rejection.
pub reject-Settled :
    (u : User) (i : ℕ) (reason : String) (db : Db)
    → Settled db db
    → Leaves (λ _. Settled db) (reject u i reason db)
unfolding reject
reject-Settled u i reason db e = Leaves-reviewed u i _ db λ d at pending.
    Leaves-now_utc _ db
      (Leaves-save _ _ _ ((rest _ _ _).keeps _ (saved db i d _ e at pending refl refl)))
  where
    rest :
        (decl : PaymentDeclaration) (sub_id id : ℕ)
        → Keeps (Settled db) (
            notify sub_id NotificationType.payment_rejected id >>= λ _.
            publish_event (Published.validation_resolved sub_id id) >>= λ _. to_out decl)
    rest decl sub_id id = search (keep_rules, to_out-Keeps, notify-Keeps, publish-Keeps) depth 15
