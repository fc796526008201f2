-- ===== src/Blacklist/Effect.antt =====
-- What `breach` of server/controllers/blacklist_controller.py leaves of a sub.
use debt_collector.Common.{
  ℕ, ◌≡◌, refl, true, false, Bool, ◌&&◌, ◌||◌, Option, none, some, List, [], ◌∷◌, arith, ◌==◌,
  ==_refl, ==_iff, subst, sym, ap, String, ◌∙◌, some_inj, Bool-cases, inl, inr, if◌then◌else◌,
  is_none, map, ◌⊎◌,
}
use debt_collector.Common.Table.{
  Table, find_row, put_row, find_row-put_row, find_row-put_row_self, rows, Distinct, put_row-cases,
}
use debt_collector.Common.Lists.{any_of, select}
use debt_collector.Model.{
  Db, User, UserStatus, user_status_enum, DebtContract, DebtContractStatus, contract_status_enum,
  RefreshToken,
}
use debt_collector.Model.Leaves.{
  Leaves, Leaves-bind, Leaves-pure, Leaves-gets, Leaves-or_raise, Leaves-raise_if, Leaves-now_utc,
  Leaves-fresh_id, Leaves-modify,
}
use debt_collector.Session.Leaves.{
  Leaves-goddess, Leaves-contract, Leaves-save_contract, Leaves-append_audit, Leaves-notify,
}
use debt_collector.Job.Daily.{is_active_of, active_contracts}
use debt_collector.Blacklist.{
  sub_of, breach_contract, breach_all, breach_active, save_user, revoke_tokens,
  revoke_all_refresh_for_user, save_entry, breach,
}

abbrev pub active_row : ℕ → Option DebtContract → Bool
active_row sub_id none = false
active_row sub_id (some c) = is_active_of sub_id c

-- The contract under an id is an active one of a sub.
abbrev pub active_under : ℕ → ℕ → Table DebtContract → Bool
active_under sub_id k cs = active_row sub_id (find_row k cs)

-- A token with which the user may still get a session.
abbrev pub is_usable : ℕ → RefreshToken → Bool
is_usable user_id t = t.user_id == user_id && is_none t.revoked_at

pub revoked :
    (user_id now : ℕ) (ts : List RefreshToken)
    → any_of (is_usable user_id) (revoke_tokens user_id now ts) ≡ false
revoked user_id now [] = refl
revoked user_id now (t ∷ ts) = elim (Bool-cases (is_usable user_id t)) [
  | inl usable ↦ ground (arith, revoked user_id now ts, usable)
  | inr other ↦ ground (arith, revoked user_id now ts, other)
]

abbrev pub IsKeyed : Table DebtContract → Type 0
IsKeyed cs = (j : ℕ) (c : DebtContract) → find_row j cs ≡ some c → c.id ≡ j

IsKeyed-put :
    (cs : Table DebtContract) (d : DebtContract) → IsKeyed cs → IsKeyed (put_row d.id d cs)
IsKeyed-put cs d keyed j c at = elim (put_row-cases d.id j d c cs at) [
  | inl (same, is_d) ↦ ap (λ (x : DebtContract). x.id) (sym is_d) ∙ same
  | inr (other, old) ↦ keyed j c old
]

head_or : (a b : Bool) → a ≡ true → (a || b) ≡ true
head_or a b h = ground arith

tail_or : (a b : Bool) → b ≡ true → (a || b) ≡ true
tail_or a b h = ground arith

-- An active contract is among those that the query finds.
listed :
    (sub_id k : ℕ) (cs : Table DebtContract)
    → Distinct cs
    → IsKeyed cs
    → active_under sub_id k cs ≡ true
    → any_of (λ j. j == k) (map (λ c. c.id) (select (is_active_of sub_id) (rows cs))) ≡ true
listed sub_id k [] d keyed h = h
listed sub_id k ((j, c) ∷ cs) (new, d) keyed h =
    let rest = listed sub_id k cs d (λ i x at. keyed i x (apart i x at)) in
    elim (Bool-cases (j == k)) [
      | inl same ↦
          let active : is_active_of sub_id c ≡ true =
            subst (λ b. active_row sub_id (if b then some c else find_row k cs) ≡ true) same h in
          rw active (head_or (c.id == k) _ (rw (keyed j c (rw (==_refl j) refl)) same))
      | inr other ↦
          let after : active_under sub_id k cs ≡ true =
            subst (λ b. active_row sub_id (if b then some c else find_row k cs) ≡ true) other h in
          elim (Bool-cases (is_active_of sub_id c)) [
            | inl hit ↦ rw hit (tail_or (c.id == k) _ (rest after))
            | inr miss ↦ rw miss (rest after)
          ]
    ]
  where
    apart : (i : ℕ) (x : DebtContract) → find_row i cs ≡ some x → find_row i ((j, c) ∷ cs) ≡ some x
    apart i x at = elim (Bool-cases (j == i)) [
      | inl same ↦ grind (arith, ==_iff j i, new, at, same)
      | inr other ↦ rw other at
    ]

module _ (sub_id k : ℕ) where
  -- A save as breached makes no contract active.
  saved :
      (cs : Table DebtContract) (j : ℕ) (d : DebtContract)
      → d.status ≡ DebtContractStatus.breached
      → (j ≡ k) ⊎ (active_under sub_id k cs ≡ false)
      → active_under sub_id k (put_row j d cs) ≡ false
  saved cs j d breached h = ap (active_row sub_id) (find_row-put_row j k d cs) ∙ split
    where
      split : active_row sub_id (if j == k then some d else find_row k cs) ≡ false
      split = elim (Bool-cases (j == k)) [
        | inl same ↦ rw same (rw breached (ground arith))
        | inr other ↦
            rw other (elim h [
              | inl e ↦ absurd (grind (arith, ==_iff j k, other, e))
              | inr before ↦ before
            ])
      ]

  breach_contract-ends :
      (actor_id id : ℕ) (rest : Bool) (db : Db)
      → IsKeyed db.contracts
      → ((id == k || rest) ≡ true) ⊎ (active_under sub_id k db.contracts ≡ false)
      → Leaves
          (λ _ d.
            IsKeyed d.contracts × ((rest ≡ true) ⊎ (active_under sub_id k d.contracts ≡ false)))
          (breach_contract actor_id id db)
  unfolding breach_contract
  breach_contract-ends actor_id id rest db keyed h = Leaves-contract id _ db λ c found.
      Leaves-now_utc _ db (
        Leaves-save_contract _ _ _ (
          Leaves-append_audit _ _ _ (
            Leaves-pure _ _ (
              IsKeyed-put db.contracts _ keyed,
              elim h [
                | inr before ↦ inr (saved db.contracts c.id _ refl (inr before))
                | inl here ↦ elim (Bool-cases (id == k)) [
                  | inl same ↦ inr (
                      saved db.contracts c.id _ refl
                        (inl (keyed id c found ∙ (==_iff id k).0 same)))
                  | inr other ↦ inl (subst (λ b. (b || rest) ≡ true) other here)
                ]
              ],
            ))))

  breach_all-ends :
      (actor_id : ℕ) (ids : List ℕ) (db : Db)
      → IsKeyed db.contracts
      → (any_of (λ j. j == k) ids ≡ true) ⊎ (active_under sub_id k db.contracts ≡ false)
      → Leaves (λ _ d. active_under sub_id k d.contracts ≡ false) (breach_all actor_id ids db)
  unfolding breach_all
  breach_all-ends actor_id [] db keyed h =
      Leaves-pure _ db (elim h [ inl e ↦ cc | inr before ↦ before ])
  breach_all-ends actor_id (id ∷ ids) db keyed h =
      Leaves-bind
        (λ _ d.
          IsKeyed d.contracts
          × ((any_of (λ j. j == k) ids ≡ true) ⊎ (active_under sub_id k d.contracts ≡ false)))
        _ _ db (breach_contract-ends actor_id id _ db keyed h)
        λ balance d _ (keyed', h').
          Leaves-bind (λ _ e. active_under sub_id k e.contracts ≡ false) _ _ d
            (breach_all-ends actor_id ids d keyed' h') λ snapshot e _ ended. Leaves-pure _ e ended

sub_of-some : (g : ℕ) (o : Option User) (s : User) → sub_of g o ≡ some s → o ≡ some s
sub_of-some g none s h = ground arith
sub_of-some g (some u) s h = ground arith

-- In a database whose contracts stand under distinct keys, each under its own id, and where the sub's
-- account stands under its id: after a breach no contract of the sub is active, the sub's account is
-- blacklisted, and none of the sub's refresh tokens can be used.
pub breach-ends :
    (u sub : User) (sub_id k : ℕ) (reason : Option String) (db : Db)
    → Distinct db.contracts
    → IsKeyed db.contracts
    → find_row sub_id db.users ≡ some sub
    → sub.id ≡ sub_id
    → Leaves
        (λ entry d.
          (active_under sub_id k d.contracts ≡ false)
          × (find_row sub_id d.users ≡ some (record sub { status = UserStatus.blacklisted }))
          × (any_of (is_usable sub_id) d.refresh_tokens ≡ false))
        (breach u sub_id reason db)
unfolding breach breach_active save_user revoke_all_refresh_for_user save_entry
breach-ends u sub sub_id k reason db distinct at_ids found keyed = Leaves-goddess u.id _ db λ g at.
    Leaves-gets _ _ db (
      Leaves-or_raise _ _ _ db λ s own. Leaves-raise_if _ _ _ db λ free. Leaves-now_utc _ db (
        Leaves-bind (λ _ d. active_under sub_id k d.contracts ≡ false) _ _ db
          (Leaves-gets _ _ db (breach_all-ends sub_id k u.id _ db at_ids active_or_listed))
          λ snapshot d _ ended. Leaves-modify _ _ d (
            Leaves-modify _ _ _ (
              Leaves-fresh_id _ _ (
                Leaves-modify _ _ _ (
                  Leaves-notify _ _ _ _ _ (
                    Leaves-pure _ _ (
                      ended,
                      ap
                            (λ (j : ℕ).
                              find_row sub_id
                                (put_row j (record s { status = UserStatus.blacklisted }) d.users))
                            (ap (λ (x : User). x.id) (is_sub g s own) ∙ keyed)
                          ∙ find_row-put_row_self sub_id _ d.users
                          ∙ ap (λ (x : User). some (record x { status = UserStatus.blacklisted }))
                              (is_sub g s own),
                      revoked sub_id d.clock d.refresh_tokens,
                    ))))))))
  where
    is_sub : (g : ℕ) (s : User) → sub_of g (find_row sub_id db.users) ≡ some s → s ≡ sub
    is_sub g s own = some_inj (sym (sub_of-some g (find_row sub_id db.users) s own) ∙ found)

    active_or_listed :
        (any_of (λ j. j == k) (active_contracts sub_id db) ≡ true)
        ⊎ (active_under sub_id k db.contracts ≡ false)
    active_or_listed = elim (Bool-cases (active_under sub_id k db.contracts)) [
      | inl active ↦ inl (listed sub_id k db.contracts distinct at_ids active)
      | inr idle ↦ inr idle
    ]
