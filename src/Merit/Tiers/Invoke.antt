-- ===== src/Merit/Tiers/Invoke.antt =====
-- server/controllers/merits_controller.py: what the invocation of a punishment does.
use debt_collector.Common.{
  ℕ, ◌≡◌, refl, Bool, sym, subst, true, false, ◌&&◌, not-false, some, [], ◌∷◌, ◌++◌, ◌==◌, ==_iff,
}
use debt_collector.Common.Int.{◌+ℤ◌}
use debt_collector.Common.Table.{find_row, find_row-put_row_self}
use debt_collector.Common.Lists.{any_of}
use debt_collector.Model.{
  Db, Done, User, TaskStatus, PunishmentTier, MeritEvent, MeritSourceKind, Action, ◌>>=◌,
}
use debt_collector.Model.Leaves.{
  Leaves, Leaves-gets, Leaves-or_raise, Leaves-raise_if, Leaves-now_utc, Leaves-modify, Leaves-pure,
  Leaves-fresh_id, Leaves-found, Leaves-assoc, Leaves-pure_bind,
}
use debt_collector.Session.Leaves.{Leaves-goddess}
use debt_collector.Merit.{same_source, insert_if_free, insert_idempotent, balance_for_sub}
use debt_collector.Merit.Balance.{share, balance-append}
use debt_collector.Task.{require_sub_under_goddess, save_task}
use debt_collector.Merit.Tiers.{require_owned_punishment, invoke_punishment}

module _ {B : Type 0} {P : B → Db → Type 0} where
  -- An event whose source has none is inserted.
  Leaves-insert_free :
      (e : MeritEvent) (k : Bool → Action B) (db : Db)
      → any_of (same_source e.source_kind e.source_id) db.merit_events ≡ false
      → Leaves P (k true (record db { merit_events = db.merit_events ++ e ∷ [] }))
      → Leaves P ((insert_idempotent e >>= k) db)
  unfolding insert_idempotent
  Leaves-insert_free e k db free h = Leaves-assoc _ _ k db (
      Leaves-gets _ _ db (
        subst (λ b. Leaves P ((insert_if_free b e >>= k) db)) (sym free)
          (Leaves-assoc _ _ k db (Leaves-modify _ _ db (Leaves-pure_bind _ k _ h)))))

  Leaves-punishment :
      (g punishment_id : ℕ) (tier : PunishmentTier) (k : PunishmentTier → Action B) (db : Db)
      → find_row punishment_id db.punishment_tiers ≡ some tier
      → (tier.goddess_id ≡ g → Leaves P (k tier db))
      → Leaves P ((require_owned_punishment g punishment_id >>= k) db)
  unfolding require_owned_punishment
  Leaves-punishment g punishment_id tier k db found h = Leaves-assoc _ _ k db (
      Leaves-gets _ _ db (
        Leaves-assoc _ _ k db (
          Leaves-found _ tier _ _ db found (
            Leaves-assoc _ _ k db (
              Leaves-raise_if _ _ _ db
                λ own. Leaves-pure_bind tier k db (h ((==_iff _ _).0 (not-false _ own))))))))

  Leaves-under :
      (g sub_id : ℕ) (k : Done → Action B) (db : Db)
      → Leaves P (k tt db)
      → Leaves P ((require_sub_under_goddess g sub_id >>= k) db)
  unfolding require_sub_under_goddess
  Leaves-under g sub_id k db h = Leaves-assoc _ _ k db (
      Leaves-gets _ _ db (
        Leaves-assoc _ _ k db (Leaves-or_raise _ _ _ db λ b e. Leaves-raise_if _ _ _ db λ hers. h)))

-- An invoked punishment, where the id that the server gives next is the source of no invocation, takes
-- its penalty from the balance of the sub and changes no other balance; and it leaves an open task of
-- the sub with the punishment's name and the same points for a miss.
pub invoke_punishment-balance :
    (u : User) (punishment_id sub_id s g : ℕ) (tier : PunishmentTier) (db : Db)
    → find_row punishment_id db.punishment_tiers ≡ some tier
    → any_of (same_source MeritSourceKind.punishment_invoke (some db.next_id)) db.merit_events
      ≡ false
    → Leaves
        (λ task d.
          (balance_for_sub s g d
            ≡ balance_for_sub s g db
              +ℤ share (sub_id == s && tier.goddess_id == g) tier.default_points_penalty)
          × (find_row task.id d.tasks ≡ some task)
          × (task.status ≡ TaskStatus.open_task)
          × (task.sub_id ≡ sub_id)
          × (task.title ≡ tier.name)
          × (task.points_on_miss ≡ tier.default_points_penalty))
        (invoke_punishment u punishment_id sub_id db)
unfolding invoke_punishment save_task balance_for_sub
invoke_punishment-balance u punishment_id sub_id s g tier db found free =
    Leaves-goddess u.id _ db λ goddess at.
      Leaves-punishment goddess punishment_id tier _ db found λ own.
        Leaves-raise_if _ _ _ db λ active. Leaves-under goddess sub_id _ db (
          Leaves-now_utc _ db (
            Leaves-fresh_id _ db (
              Leaves-modify _ _ _ (
                Leaves-insert_free _ _ _ free (
                  Leaves-pure _ _ (
                    rw own (balance-append db _ s g),
                    find_row-put_row_self db.next_id _ db.tasks,
                    refl,
                    refl,
                    refl,
                    refl,
                  ))))))
