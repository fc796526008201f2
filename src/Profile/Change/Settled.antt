-- ===== src/Profile/Change/Settled.antt =====
-- server/controllers/profile_controller.py: a change request that is settled stays so.
use debt_collector.Common.{
  ℕ, ◌≡◌, ◌≢◌, refl, sym, ◌∙◌, ap, Bool, true, false, not-false, ◌||◌, Option, none, some, some_inj,
  String, ◌is◌, subst, Bool-cases, inl, inr, ==_iff, ◌==◌, arith,
}
use debt_collector.Common.Table.{Table, find_row, put_row, find_row-put_row}
use debt_collector.Model.{
  Db, User, Action, ProfileChangeRequestStatus, change_status_enum, ProfileChangeRequest, ◌>>=◌,
}
use debt_collector.Model.Leaves.{
  Leaves, Leaves-gets, Leaves-or_raise, Leaves-raise_if, Leaves-now_utc, Leaves-modify, Leaves-pure,
  Leaves-assoc, Leaves-fresh_id, Leaves-pure_bind,
}
use debt_collector.Session.Leaves.{Leaves-goddess}
use debt_collector.Payment.Declare.{save_declaration}
use debt_collector.Profile.Change.{
  ProfileChangeRequestIn, save_request, request_change, get_request, require_her_request,
  apply_diff, approve_free, set_fee, accept_fee, is_rejectable, reject_change,
}

abbrev pub is_settled : ProfileChangeRequestStatus → Bool
is_settled s =
    (s is ProfileChangeRequestStatus.approved) || (s is ProfileChangeRequestStatus.rejected)

open_of : (s : ProfileChangeRequestStatus) → is_rejectable s ≡ true → is_settled s ≡ false
open_of ProfileChangeRequestStatus.pending h = refl
open_of ProfileChangeRequestStatus.approved h = cc
open_of ProfileChangeRequestStatus.rejected h = cc
open_of ProfileChangeRequestStatus.awaiting_fee_payment h = refl
open_of ProfileChangeRequestStatus.cancelled h = refl

pending_rejectable :
    (s : ProfileChangeRequestStatus)
    → s is ProfileChangeRequestStatus.pending ≡ true
    → is_rejectable s ≡ true
pending_rejectable s h = rw h refl

awaiting_rejectable :
    (s : ProfileChangeRequestStatus)
    → s is ProfileChangeRequestStatus.awaiting_fee_payment ≡ true
    → is_rejectable s ≡ true
awaiting_rejectable s h = ground (arith, h)

-- The calls of the operations that change a request.
pub data ChangeCall : Type 0 where
  asks : User → ProfileChangeRequestIn → ChangeCall
  approves : ℕ → User → ChangeCall
  prices : ℕ → User → ℕ → ChangeCall
  accepts : ℕ → User → ℕ → ChangeCall
  rejects : ℕ → User → String → ChangeCall

unfoldable pub change : ChangeCall → Action ProfileChangeRequest
change (asks u payload) = request_change u payload
change (approves i u) = approve_free i u
change (prices i u fee) = set_fee i u fee
change (accepts i u method_id) = accept_fee i u method_id
change (rejects i u reason) = reject_change i u reason

module _ {B : Type 0} {P : B → Db → Type 0} where
  Leaves-request :
      (i : ℕ) (k : ProfileChangeRequest → Action B) (db : Db)
      → ((q : ProfileChangeRequest) → find_row i db.change_requests ≡ some q → Leaves P (k q db))
      → Leaves P ((get_request i >>= k) db)
  unfolding get_request
  Leaves-request i k db h = Leaves-assoc _ _ k db (Leaves-gets _ _ db (Leaves-or_raise _ _ k db h))

  Leaves-her_request :
      (u : User) (i : ℕ) (k : ProfileChangeRequest → Action B) (db : Db)
      → ((q : ProfileChangeRequest) → find_row i db.change_requests ≡ some q → Leaves P (k q db))
      → Leaves P ((require_her_request u i >>= k) db)
  unfolding require_her_request
  Leaves-her_request u i k db h = Leaves-assoc _ _ k db (
      Leaves-request i _ db λ q at. Leaves-assoc _ _ k db (
        Leaves-goddess u.id _ db λ g is_g. Leaves-assoc _ _ k db (
          Leaves-gets _ _ db (
            Leaves-assoc _ _ k db
              (Leaves-raise_if _ _ _ db λ linked. Leaves-pure_bind q k db (h q at))))))

module _ (id : ℕ) (r : ProfileChangeRequest) (settled : is_settled r.status ≡ true) where
  -- A write over a request that is open, or over none, leaves a settled one.
  stays :
      (t : Table ProfileChangeRequest) (i : ℕ) (q : ProfileChangeRequest)
      → find_row id t ≡ some r
      → find_row i t ≢ some r
      → find_row id (put_row i q t) ≡ some r
  stays t i q at other = find_row-put_row i id q t ∙ elim (Bool-cases (i == id)) [
    | inl same ↦ absurd (other (subst (λ j. find_row j t ≡ some r) (sym ((==_iff i id).0 same)) at))
    | inr differs ↦ rw differs at
  ]

  not_open :
      (o : Option ProfileChangeRequest) (q : ProfileChangeRequest)
      → o ≡ some q
      → is_rejectable q.status ≡ true
      → o ≢ some r
  not_open o q at free_yet e =
      (contradicts (
        sym settled
        ∙ (ap (λ x. is_settled x.status) (some_inj (sym e ∙ at)) ∙ open_of q.status free_yet)))
    where
      contradicts : true ≢ false
      contradicts h = cc

  saved :
      (i : ℕ) (q new : ProfileChangeRequest) (db : Db)
      → find_row id db.change_requests ≡ some r
      → find_row i db.change_requests ≡ some q
      → is_rejectable q.status ≡ true
      → Leaves (λ _ d. find_row id d.change_requests ≡ some r) (save_request i new db)
  unfolding save_request
  saved i q new db at found free_yet =
      Leaves-modify _ _ db
        (Leaves-pure _ _ (stays db.change_requests i new at (not_open _ q found free_yet)))

  nothing : (o : Option ProfileChangeRequest) → o ≡ none → o ≢ some r
  nothing o free at = cc

  -- A change request that has been approved or rejected stays exactly as it is, whatever is asked next
  -- of the operations on change requests, where the id that the server gives next is free.
  pub change-Settled :
      (call : ChangeCall) (db : Db)
      → find_row id db.change_requests ≡ some r
      → find_row db.next_id db.change_requests ≡ none
      → Leaves (λ _ d. find_row id d.change_requests ≡ some r) (change call db)
  unfolding change request_change save_request approve_free apply_diff set_fee accept_fee
      save_declaration reject_change
  change-Settled (asks u payload) db at free = Leaves-raise_if _ _ _ db λ given.
      Leaves-now_utc _ db (
        Leaves-fresh_id _ db (
          Leaves-modify _ _ _
            (Leaves-pure _ _ (stays db.change_requests db.next_id _ at λ e. nothing _ free e))))
  change-Settled (approves i u) db at free = Leaves-her_request u i _ db λ q found.
      Leaves-raise_if _ _ _ db λ pending. Leaves-assoc _ _ _ db (
        Leaves-gets _ _ db (
          Leaves-assoc _ _ _ db (
            Leaves-or_raise _ _ _ db λ sub is_sub. Leaves-modify _ _ db (
              Leaves-now_utc _ _
                (saved i q _ _ at found (pending_rejectable q.status (not-false _ pending)))))))
  change-Settled (prices i u fee) db at free = Leaves-her_request u i _ db λ q found.
      Leaves-raise_if _ _ _ db
        λ pending. saved i q _ db at found (pending_rejectable q.status (not-false _ pending))
  change-Settled (accepts i u method_id) db at free = Leaves-request i _ db λ q found.
      Leaves-raise_if _ _ _ db λ own. Leaves-raise_if _ _ _ db λ awaiting.
        Leaves-or_raise _ _ _ db λ amount is_amount. Leaves-or_raise _ _ _ db λ g is_g.
          Leaves-gets _ _ db (
            Leaves-or_raise _ _ _ db λ m is_m. Leaves-now_utc _ db (
              Leaves-fresh_id _ db (
                Leaves-modify _ _ _
                  (saved i q _ _ at found (awaiting_rejectable q.status (not-false _ awaiting))))))
  change-Settled (rejects i u reason) db at free = Leaves-her_request u i _ db λ q found.
      Leaves-raise_if _ _ _ db
        λ free_yet. Leaves-now_utc _ db (saved i q _ db at found (not-false _ free_yet))
