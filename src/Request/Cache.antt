-- ===== src/Request/Cache.antt =====
-- The map of routes, and the access log: what the handlers keep between requests.
use sky_accel.Base.{
  ℕ, ◌+◌, ◌≤◌, ◌≡◌, ◌≢◌, inl, inr, refl, List, true, arith, leb, ltb, Option-cases,
}
use sky_accel.Base.Keys.{lookup, insert, lookup-insert, same_refl, same_ne, nat_eq, string_eq}
use Prim.Native.String.{String}
use sky_accel.Request.{PathInfo, RouteEntry, store_route, choose_route, route_timeout}
use sky_accel.Request.Connection.{should_log_access, access_window}

-- The paths of a port are those that a fetch gave, and are used for the route's timeout from then on:
-- a request within that time gets them without another fetch, later ones get them too, and start a
-- refresh; other ports keep their routes. `fetch` and `fetch'` are the control plane at the two times.
pub choose_route-store_route :
    (fetch fetch' : ℕ → List PathInfo) (now later port : ℕ) (routes : List (ℕ × RouteEntry))
    → let stored = store_route fetch now port routes in
      (choose_route fetch' later port stored
        ≡ (stored, fetch port, ltb (now + route_timeout) later))
      × ((other : ℕ) → port ≢ other → lookup other stored ≡ lookup other routes)
unfolding choose_route store_route
choose_route-store_route fetch fetch' now later port routes =
    let entry : RouteEntry = record { info = fetch port; deadline = now + route_timeout } in
    let at = lookup-insert port port entry routes in
    (
      rw (at, choose_route) (rw (same_refl port) refl),
      λ other ne. rw (lookup-insert port other entry routes) (rw (same_ne port other ne) refl),
    )

logged :
    (ip : String) (now : ℕ) (log : List (String × ℕ))
    → (should_log_access ip now log).1 ≡ true
    → (should_log_access ip now log).0 ≡ insert ip now log
unfolding should_log_access
logged ip now log e = elim (Option-cases (lookup ip log)) [
  | inl f ↦ rw (f, should_log_access) refl
  | inr (last, f) ↦ ground (arith, f, e)
]

-- An address is logged at most once in the window: behind a request that was logged at `now`, a
-- request of that address at a later time is logged exactly if the window of 5000 ms is over.
pub should_log_access_window :
    (ip : String) (now later : ℕ) (log : List (String × ℕ))
    → (should_log_access ip now log).1 ≡ true
    → now ≤ later
    → (should_log_access ip later (should_log_access ip now log).0).1
      ≡ leb (now + access_window) later
unfolding should_log_access
should_log_access_window ip now later log e h =
    let at = lookup-insert ip ip now log in
    rw (logged ip now log e) (rw (at, should_log_access) (rw (same_refl ip) (ground arith)))
