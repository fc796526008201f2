-- ===== src/Auth/Invite/Once.antt =====
-- `consume` of server/controllers/invitation_controller.py, twice with one token.
use debt_collector.Common.{
  ℕ, ◌≡◌, refl, sym, ap, ◌∙◌, true, false, Bool, Option, none, some, List, [], ◌∷◌, String, ◌==◌,
  ==_iff, Bool-cases, inl, inr, if◌then◌else◌, some_inj, subst, arith, ltb,
}
use debt_collector.Common.Table.{Table, find_row, put_row, rows}
use debt_collector.Common.Lists.{first_of?}
use debt_collector.Model.{Db, Invitation, AppError, Action, Done, err, ◌>>=◌}
use debt_collector.Model.Leaves.{
  Leaves, Leaves-gets, Leaves-or_raise, Leaves-raise_if, Leaves-now_utc, Leaves-modify,
  Leaves-assoc, Leaves-pure_bind, Leaves-pure, Leaves-fresh_id,
}
use debt_collector.Auth.{
  Security, same_text, get_by_email, save_credential, issue, create_refresh_token,
}
use debt_collector.Model.Leaves.{Leaves-unique}
use debt_collector.Blacklist.{save_user}
use debt_collector.Auth.Invite.{
  SignupRequest, joined_with, with_goddess, get_by_token, open_invitation, get_by_username,
  create_default_row, save_invitation, consume,
}

abbrev pub IsKeyed : Table Invitation → Type 0
IsKeyed [] = Unit
IsKeyed ((j, i) ∷ t) = (i.id ≡ j) × IsKeyed t

module _ (test : Invitation → Bool) (x i : Invitation) (l : List Invitation)
    (h : first_of? test (x ∷ l) ≡ some i) where
  first_hit : test x ≡ true → x ≡ i
  first_hit hit = some_inj (subst (λ b. (if b then some x else first_of? test l) ≡ some i) hit h)

  first_miss : test x ≡ false → first_of? test l ≡ some i
  first_miss miss = subst (λ b. (if b then some x else first_of? test l) ≡ some i) miss h

not_both : (b : Bool) → b ≡ true → b ≡ false → ⊥
not_both b h k = cc

-- The first row with a property is still the first one when it is written anew, with the property.
first_of?-put_row :
    (test : Invitation → Bool) (old new : Invitation) (t : Table Invitation)
    → IsKeyed t
    → first_of? test (rows t) ≡ some old
    → new.id ≡ old.id
    → test new ≡ true
    → first_of? test (rows (put_row new.id new t)) ≡ some new
first_of?-put_row test old new [] keyed found id still = ground (arith, found)
first_of?-put_row test old new ((j, i) ∷ t) (at, keyed) found id still =
    elim (Bool-cases (j == new.id)) [
      | inl same ↦ rw same (rw still refl)
      | inr other ↦ elim (Bool-cases (test i)) [
        | inl hit ↦ absurd (
            not_both (j == new.id)
              ((==_iff j new.id).1 (
                sym at
                ∙ ap (λ (x : Invitation). x.id) (first_hit test i old (rows t) found hit)
                ∙ sym id))
              other)
        | inr miss ↦ rw other (
            rw miss (
              first_of?-put_row test old new t keyed (first_miss test i old (rows t) found miss) id
                still))
      ]
    ]

-- What a search finds has what was searched for.
first_of?-holds :
    (test : Invitation → Bool) (l : List Invitation) (i : Invitation)
    → first_of? test l ≡ some i
    → test i ≡ true
first_of?-holds test [] i h = ground (arith, h)
first_of?-holds test (x ∷ l) i h = elim (Bool-cases (test x)) [
  | inl hit ↦ ap test (sym (first_hit test x i l h hit)) ∙ hit
  | inr miss ↦ first_of?-holds test l i (first_miss test x i l h miss)
]

module _ {B : Type 0} {P : B → Db → Type 0} where
  Leaves-open :
      (token : String) (k : Invitation → Action B) (db : Db)
      → ((i : Invitation) → get_by_token token db ≡ some i → Leaves P (k i db))
      → Leaves P ((open_invitation token >>= k) db)
  unfolding open_invitation
  Leaves-open token k db h = Leaves-assoc _ _ k db (
      Leaves-gets _ _ db (
        Leaves-assoc _ _ k db (
          Leaves-or_raise _ _ _ db λ i at. Leaves-assoc _ _ k db (
            Leaves-now_utc _ db (
              Leaves-assoc _ _ k db (
                Leaves-raise_if _ _ _ db λ fresh.
                  Leaves-assoc _ _ k db
                    (Leaves-raise_if _ _ _ db λ unused. Leaves-pure_bind i k db (h i at))))))))

joined_with-some : (o : Option Done) (i x : Invitation) → joined_with o i ≡ some x → i ≡ x
joined_with-some none i x h = ground arith
joined_with-some (some g) i x h = some_inj h

joined_with-again :
    (o : Option Done) (i x y : Invitation) → joined_with o i ≡ some x → joined_with o y ≡ some y
joined_with-again none i x y h = ground arith
joined_with-again (some g) i x y h = refl

with_goddess-some :
    (o : Option Invitation) (db : Db) (i : Invitation) → with_goddess o db ≡ some i → o ≡ some i
with_goddess-some none db i h = h
with_goddess-some (some x) db i h =
    ap some (joined_with-some (find_row x.goddess_id db.goddesses) x i h)

module _ (security : Security) (token : String) where
  -- An invitation that has been used is refused.
  refused :
      (signup : SignupRequest) (d : Db) (i : Invitation) (at : ℕ)
      → get_by_token token d ≡ some i
      → i.used_at ≡ some at
      → consume security token signup d ≡ err AppError.conflict
  unfolding consume open_invitation ◌>>=◌
  refused signup d i at found used = rw found (elim (Bool-cases (ltb i.expires_at d.clock)) [
    | inl late ↦ rw late refl
    | inr fresh ↦ rw (fresh, used) refl
  ])

  -- The invitation, as a signup has used it, is found again.
  found_again :
      (db d : Db) (i new : Invitation)
      → IsKeyed db.invitations
      → get_by_token token db ≡ some i
      → new.id ≡ i.id
      → new.token ≡ i.token
      → new.goddess_id ≡ i.goddess_id
      → d.goddesses ≡ db.goddesses
      → d.invitations ≡ put_row new.id new db.invitations
      → get_by_token token d ≡ some new
  unfolding get_by_token
  found_again db d i new keyed found id text goddess same written =
      let at =
        with_goddess-some (first_of? (λ x. same_text x.token token) (rows db.invitations)) db i
          found in
      ap (λ o. with_goddess o d)
        (ap (λ t. first_of? (λ x. same_text x.token token) (rows t)) written
          ∙ first_of?-put_row (λ x. same_text x.token token) i new db.invitations keyed at id
              (ap (λ (s : String). same_text s token) text
                ∙ first_of?-holds (λ x. same_text x.token token) (rows db.invitations) i at))
      ∙ (ap (λ o. joined_with o new)
            (ap (λ (g : ℕ). find_row g d.goddesses) goddess ∙ ap (find_row i.goddess_id) same)
          ∙ joined_with-again (find_row i.goddess_id db.goddesses) i i new
              (sym (ap (λ o. with_goddess o db) at) ∙ found))

  -- An invitation is used once: after a signup that succeeds, another one with the same token is refused,
  -- whoever signs up, where each invitation stands at its id.
  pub consume-once :
      (signup other : SignupRequest) (db : Db)
      → IsKeyed db.invitations
      → Leaves
          (λ _ d. consume security token other d ≡ err AppError.conflict)
          (consume security token signup db)
  unfolding consume get_by_email get_by_username save_user save_credential create_default_row
      save_invitation issue create_refresh_token
  consume-once signup other db keyed = Leaves-open token _ db λ i found. Leaves-assoc _ _ _ db (
      Leaves-gets _ _ db (
        Leaves-unique _ _ db λ email _. Leaves-raise_if _ _ _ db λ new_email.
          Leaves-assoc _ _ _ db (
            Leaves-gets _ _ db (
              Leaves-unique _ _ db λ name _. Leaves-raise_if _ _ _ db λ new_name.
                Leaves-fresh_id _ _ (
                  Leaves-modify _ _ _ (
                    Leaves-modify _ _ _ (
                      Leaves-assoc _ _ _ _ (
                        Leaves-now_utc _ _ (
                          Leaves-modify _ _ _ (
                            Leaves-now_utc _ _ (
                              Leaves-modify _ _ _ (
                                Leaves-fresh_id _ _ (
                                  Leaves-assoc _ _ _ _ (
                                    Leaves-gets _ _ _ (
                                      Leaves-assoc _ _ _ _ (
                                        Leaves-raise_if _ _ _ _ λ free. Leaves-modify _ _ _ (
                                          Leaves-pure _ _ (
                                            refused other _
                                              (record i {
                                                used_at = some db.clock;
                                                used_by_user_id = some db.next_id;
                                              })
                                              db.clock
                                              (found_again db _ i _ keyed found refl refl refl refl
                                                refl)
                                              refl))))))))))))))))))
