-- ===== src/Request/Waiting.antt =====
-- The wait of a handler, from Register to its cleanup.
use sky_accel.Base.{
  ℕ, ◌≡◌, refl, List, [], ◌∷◌, Option, none, some, Bool, true, false, get_elem?, set,
  get_elem?-set_self, get_elem?-concat,
}
use sky_accel.Base.Keys.{lookup, delete, lookup-delete, same_refl, nat_eq}
use sky_accel.Base.Run.{Run, ok, ◌>>=◌}
use sky_accel.Packet.{SubPacket}
use sky_accel.Disaggregator.{Channel, Disaggregator, register, cleanup, close_channel, deliver}
use sky_accel.Disaggregator.Waiters.{deliver-register}
use sky_accel.Request.Connection.{Proxy, receive_response, finish}

-- The calls of Deliver for the sub-packets of a frame, in order.
pub deliver_all : List SubPacket → Disaggregator → Run (Option Disaggregator)
deliver_all [] d = ok (some d)
deliver_all (s ∷ ss) d = do
  r ← deliver s.user_id s.content d
  elim r [ none ↦ ok none | some q ↦ deliver_all ss q ]

abbrev pub filled : Option (List ℕ) → Channel
filled buffer = record { buffer = buffer; is_closed = false }

module _ (is_udp : Bool) (user_id ch : ℕ) (s : Proxy) where
  gone : lookup user_id (delete user_id s.waiting.waiters) ≡ none
  gone = rw (lookup-delete user_id user_id s.waiting.waiters, same_refl user_id) refl

  -- A response that is in the channel is written, and the waiter is removed.
  pub finish-got :
      (response : List ℕ)
      → get_elem? s.waiting.channels ch ≡ some (filled (some response))
      → (s' : Proxy) × (finish is_udp user_id ch s ≡ ok (s', some response))
        × (lookup user_id s'.waiting.waiters ≡ none)
        × (s'.batched ≡ s.batched)
  unfolding finish receive_response cleanup close_channel
  finish-got response at =
      let taken =
        get_elem?-set_self s.waiting.channels ch (filled none) (filled (some response)) at in
      (
        record s {
          waiting = record {
            waiters = delete user_id s.waiting.waiters;
            channels =
                set (set s.waiting.channels ch (filled none)) ch
                  (record { buffer = none; is_closed = true });
          };
        },
        rw (at, finish, receive_response) (rw (taken, cleanup, close_channel) refl),
        gone,
        refl,
      )

  -- Without a response nothing is written, and the waiter is removed.
  pub finish-timed_out :
      get_elem? s.waiting.channels ch ≡ some (filled none)
      → (s' : Proxy) × (finish is_udp user_id ch s ≡ ok (s', none))
        × (lookup user_id s'.waiting.waiters ≡ none)
        × (s'.batched ≡ s.batched)
  unfolding finish receive_response cleanup close_channel
  finish-timed_out at = (
    record s {
      waiting = record {
        waiters = delete user_id s.waiting.waiters;
        channels = set s.waiting.channels ch (record { buffer = none; is_closed = true });
      };
    },
    rw (at, finish, receive_response) (rw (at, cleanup, close_channel) refl),
    gone,
    refl,
  )

-- A fresh waiter's channel is empty.
pub register_fresh :
    (user_id : ℕ) (d : Disaggregator)
    → get_elem? (register user_id d).0.channels (register user_id d).1 ≡ some (filled none)
unfolding register
register_fresh user_id d = get_elem?-concat d.channels (filled none)

-- The response of a user who registered is in the channel behind the delivery of a frame that carries
-- it alone.
pub deliver_all-one :
    (s : SubPacket) (d : Disaggregator)
    → (q : Disaggregator) × (deliver_all (s ∷ []) (register s.user_id d).0 ≡ ok (some q))
      × (get_elem? q.channels (register s.user_id d).1 ≡ some (filled (some s.content)))
unfolding deliver_all
deliver_all-one s d =
    let (q, e, at, _) = deliver-register s.user_id s.content d in (q, rw e refl, at)
