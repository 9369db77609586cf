-- ===== src/Request/Arrival.antt =====
-- The frame of a response that comes to the proxy, and the turn of the handler in which it comes.
use sky_accel.Base.{
  ℕ, ◌≡◌, refl, ap, List, [], ◌∷◌, none, some, true, false, arith, ◌==◌, if◌then◌else◌,
}
use sky_accel.Base.Keys.{lookup, nat_eq}
use sky_accel.Base.Run.{Run, ok, ◌>>=◌}
use Prim.Native.String.{String}
use sky_accel.Packet.Bytes.{Hops}
use sky_accel.Disaggregator.{register}
use sky_accel.Tunnel.{submit, deliver, dropped, forward}
use sky_accel.Tunnel.Route.{travel}
use sky_accel.Request.{PathInfo, choose_route}
use sky_accel.Request.Connection.{
  Proxy, Client, Turn, waits, route_of, begin_tcp, log_access, serve_tcp,
}
use sky_accel.Request.Waiting.{deliver_all, deliver_all-one, finish-got}
use sky_accel.Aggregator.Addresses.{word}
use sky_accel.Request.Journey.{IsWay, one_relay, two_relays}

-- The last one of the addresses that a frame comes to.
abbrev pub last_address : List ℕ → ℕ
last_address [] = 0
last_address (x ∷ []) = x
last_address (x ∷ y ∷ ys) = last_address (y ∷ ys)

-- A frame that is sent to the node `n`, seen from the proxy with the address `self`: what the last node of
-- its way delivers goes to the waiters of the proxy if it is that node.
pub hand_over : ℕ → ℕ → List ℕ → Proxy → Run Proxy
hand_over self n raw s = do
  r ← travel 3 raw
  elim r.1 [
    | deliver subs ↦ (do
      d ← deliver_all subs s.waiting
      elim d [
        | none ↦ ok s
        | some q ↦ if last_address (n ∷ r.0) == self then ok (record s { waiting = q }) else ok s
      ])
    | dropped ↦ ok s
    | submit protocol tasks ↦ ok s
    | forward ip pkt ↦ ok s
  ]

-- The address of the node where a request starts.
abbrev first_word : List (List ℕ) → ℕ
first_word [] = 0
first_word (a ∷ hops) = word a

pub last_address-back :
    (hops : List (List ℕ)) (h : Hops) (origin : ℕ) (relays back : List ℕ)
    → IsWay hops h origin relays back
    → last_address back ≡ first_word hops
last_address-back hops h origin relays back (one_relay a b c _ _ _) = refl
last_address-back hops h origin relays back (two_relays a b c d _ _ _ _) = refl

module _ (string_of : List ℕ → String) (fetch : ℕ → List PathInfo) (port : ℕ) (client : Client)
    (s : Proxy) where
  pub log_access-kept :
      (t : Turn)
      → ((log_access client t s).routes ≡ s.routes)
        × ((log_access client t s).waiting ≡ s.waiting)
        × ((log_access client t s).batched ≡ s.batched)
  unfolding log_access
  log_access-kept t = ground arith

  pub route_of-log_access :
      (t : Turn)
      → (route_of string_of fetch t.now port (log_access client t s)).1
        ≡ (route_of string_of fetch t.now port s).1
  unfolding route_of
  route_of-log_access t = ap (λ r. (choose_route fetch t.now port r).1) (log_access-kept t).0

  -- A turn in which the response to the request arrives.
  pub serve_tcp-got :
      (t : Turn) (user_id self n : ℕ) (content response raw relays : List ℕ) (begun : Proxy)
      → begin_tcp string_of fetch t.now port user_id content (log_access client t s)
        ≡ ok (begun, waits (register user_id (log_access client t s).waiting).1)
      → begun.waiting ≡ (register user_id (log_access client t s).waiting).0
      → t.meanwhile ≡ hand_over self n raw
      → travel 3 raw ≡ ok (relays, deliver (record { user_id = user_id; content = response } ∷ []))
      → last_address (n ∷ relays) ≡ self
      → (s' : Proxy) × (serve_tcp string_of fetch port client t user_id content s
          ≡ ok (s', some response, true))
        × (lookup user_id s'.waiting.waiters ≡ none)
        × (s'.batched ≡ begun.batched)
  unfolding serve_tcp hand_over
  serve_tcp-got t user_id self n content response raw relays begun e w m arrives ends =
      let ch = (register user_id (log_access client t s).waiting).1 in
      let (q, d, at) =
        deliver_all-one (record { user_id = user_id; content = response })
          (log_access client t s).waiting in
      let (s', done, gone, kept) =
        finish-got false user_id ch (record begun { waiting = q }) response at in
      let here : (last_address (n ∷ relays) == self) ≡ true = ground (arith, ends) in
      let handed : hand_over self n raw begun ≡ ok (record begun { waiting = q }) =
        rw (arrives, hand_over) (rw w (rw d (rw here refl))) in
      (s', rw (e, serve_tcp) (rw m (rw handed (rw done refl))), gone, kept)
