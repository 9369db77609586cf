-- ===== src/Disaggregator.antt =====
-- data-proxy/disaggregator/disaggregator.go: the channels on which requests wait for their responses. A
-- channel has room for one response; it stands in `channels`, under its number. A send on a closed
-- channel and a second close panic; a send on a full channel blocks, until the channel is read.
pub mod Waiters
use sky_accel.Base.{
  ℕ, List, [], ◌∷◌, ◌++◌, Option, none, some, Bool, true, false, if◌then◌else◌, length, get_elem?,
  set,
}
use sky_accel.Base.Keys.{lookup, insert, delete, nat_eq}
use sky_accel.Base.Run.{Run, ok, panic, ◌>>=◌}

pub record Channel : Type 0 where
  pub buffer : Option (List ℕ)
  pub is_closed : Bool

pub record Disaggregator : Type 0 where
  pub waiters : List (ℕ × ℕ)
  pub channels : List Channel

-- Register: the number of the new channel, which its cleanup and its reader know.
unfoldable pub register : ℕ → Disaggregator → Disaggregator × ℕ
register user_id d =
    let ch = length d.channels in
    (
      record {
        waiters = insert user_id ch d.waiters;
        channels = d.channels ++ record { buffer = none; is_closed = false } ∷ [];
      },
      ch,
    )

-- close(ch)
unfoldable pub close_channel : ℕ → Disaggregator → Run Disaggregator
close_channel ch d = elim (get_elem? d.channels ch) [
  | none ↦ panic
  | some c ↦
      if c.is_closed
      then panic
      else ok (record d { channels = set d.channels ch (record c { is_closed = true }) })
]

-- The function that Register gives with a channel.
unfoldable pub cleanup : ℕ → ℕ → Disaggregator → Run Disaggregator
unfolding close_channel
cleanup user_id ch d = close_channel ch (record d { waiters = delete user_id d.waiters })

-- `ch <- data`, none if it blocks.
unfoldable pub send : ℕ → List ℕ → Disaggregator → Run (Option Disaggregator)
send ch response d = elim (get_elem? d.channels ch) [
  | none ↦ panic
  | some c ↦ if c.is_closed then panic else elim c.buffer [
    | some waiting ↦ ok none
    | none ↦
        ok (some (record d { channels = set d.channels ch (record c { buffer = some response }) }))
  ]
]

-- Deliver
unfoldable pub deliver : ℕ → List ℕ → Disaggregator → Run (Option Disaggregator)
unfolding send
deliver user_id response d = elim (lookup user_id d.waiters) [
  | none ↦ ok (some d)
  | some ch ↦ send ch response d
]
