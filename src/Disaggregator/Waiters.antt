-- ===== src/Disaggregator/Waiters.antt =====
-- What a waiter gets.
use sky_accel.Base.{
  ℕ, ◌≡◌, refl, ◌∙◌, List, [], ◌∷◌, ◌++◌, none, some, true, false, arith, length, get_elem?, set,
  get_elem?-concat, get_elem?-append_left, get_elem?-set_self, get_elem?-set_ne, length-append, ◌<◌,
}
use sky_accel.Base.Keys.{lookup, delete, lookup-insert, lookup-delete, same_refl, nat_eq}
use sky_accel.Base.Run.{ok}
use sky_accel.Disaggregator.{
  Channel, Disaggregator, register, cleanup, close_channel, deliver, send,
}

-- A response for a user who registered reaches the channel of the last registration of that user, and
-- no other channel changes.
pub deliver-register :
    (user_id : ℕ) (response : List ℕ) (d : Disaggregator)
    → (q : Disaggregator) × (deliver user_id response (register user_id d).0 ≡ ok (some q))
      × (get_elem? q.channels (register user_id d).1
          ≡ some (record { buffer = some response; is_closed = false }))
      × ((ch : ℕ) → ch < length d.channels → get_elem? q.channels ch ≡ get_elem? d.channels ch)
unfolding deliver register send
deliver-register user_id response d =
    let ch = length d.channels in
    let fresh : Channel = record { buffer = none; is_closed = false } in
    let filled : Channel = record { buffer = some response; is_closed = false } in
    let channels = d.channels ++ fresh ∷ [] in
    let found : lookup user_id (register user_id d).0.waiters ≡ some ch =
      rw (lookup-insert user_id user_id ch d.waiters, same_refl user_id) refl in
    let at = get_elem?-concat d.channels fresh in
    (
      record (register user_id d).0 { channels = set channels ch filled },
      rw (found, deliver) (rw (at, send)),
      get_elem?-set_self channels ch filled fresh at,
      λ i below.
          get_elem?-set_ne channels ch i filled (λ e. absurd (omega arith))
          ∙ get_elem?-append_left d.channels (fresh ∷ []) i below,
    )

-- Two requests of one user that overlap: the cleanup of the first takes the second one's entry, and
-- a response for the second one is lost.
pub cleanup_takes_newer :
    (user_id : ℕ) (response : List ℕ) (d : Disaggregator)
    → let first = register user_id d in
      let second = register user_id first.0 in
      (q : Disaggregator) × (cleanup user_id first.1 second.0 ≡ ok q)
      × (lookup user_id q.waiters ≡ none)
      × (deliver user_id response q ≡ ok (some q))
unfolding cleanup register close_channel deliver
cleanup_takes_newer user_id response d =
    let fresh : Channel = record { buffer = none; is_closed = false } in
    let one = d.channels ++ fresh ∷ [] in
    let second = (register user_id (register user_id d).0).0 in
    let at : get_elem? (one ++ fresh ∷ []) (length d.channels) ≡ some fresh =
      get_elem?-append_left one (fresh ∷ []) (length d.channels)
        (omega (arith, length-append d.channels (fresh ∷ [])))
      ∙ get_elem?-concat d.channels fresh in
    let gone : lookup user_id (delete user_id second.waiters) ≡ none =
      rw (lookup-delete user_id user_id second.waiters, same_refl user_id) refl in
    (
      record {
        waiters = delete user_id second.waiters;
        channels = set (one ++ fresh ∷ []) (length d.channels) (record fresh { is_closed = true });
      },
      rw (at, cleanup, close_channel),
      gone,
      rw (gone, deliver),
    )
