-- ===== src/Request/Lines.antt =====
-- The lines that a connection's reads give, and the end of the keep-alive loop.
use sky_accel.Base.{
  ℕ, zero, suc, ◌<◌, ◌≡◌, inl, inr, refl, List, [], ◌∷◌, ◌++◌, none, some, arith, length, All,
  Option-cases,
}
use mathlib.Core.List.{foldr}
use sky_accel.Base.Run.{Run-cases}
use Prim.Native.String.{String}
use sky_accel.Request.{PathInfo}
use sky_accel.Request.Choice.{Free}
use sky_accel.Request.Connection.{
  Proxy, Client, Turn, cut_line, read_line, serve_tcp, next_req_id, keep_alive_loop,
}

cut_line-Free :
    (line behind : List ℕ) → Free 10 line → cut_line (line ++ 10 ∷ behind) ≡ some (line ++ 10 ∷ [])
unfolding cut_line
cut_line-Free [] behind f = refl
cut_line-Free (c ∷ line) behind f = ground (arith, f.0, cut_line-Free line behind f.1)

cut_line-none : (part : List ℕ) → Free 10 part → cut_line part ≡ none
unfolding cut_line
cut_line-none [] f = refl
cut_line-none (c ∷ part) f = ground (arith, f.0, cut_line-none part f.1)

-- A line that comes in any number of chunks, without a line's end before the last one, is read whole; what
-- stands behind its end in the last chunk is lost, and the next read starts at the next chunk.
pub read_line_loses :
    (parts : List (List ℕ)) (line behind : List ℕ) (chunks : List (List ℕ))
    → All (Free 10) parts
    → Free 10 line
    → read_line (parts ++ (line ++ 10 ∷ behind) ∷ chunks)
      ≡ some (foldr (λ part l. part ++ l) (line ++ 10 ∷ []) parts, chunks)
unfolding read_line
read_line_loses [] line behind chunks p f = rw (cut_line-Free line behind f, read_line) refl
read_line_loses (part ∷ parts) line behind chunks p f =
    rw (cut_line-none part p.0, read_line)
      (rw (read_line_loses parts line behind chunks p.1 f) refl)

read_line_shorter :
    (chunks : List (List ℕ)) (line : List ℕ) (rest : List (List ℕ))
    → read_line chunks ≡ some (line, rest)
    → length rest < length chunks
unfolding read_line
read_line_shorter [] line rest e = absurd cc
read_line_shorter (chunk ∷ chunks) line rest e = elim (Option-cases (cut_line chunk)) [
  | inr (l, f) ↦ ground (arith, f, e)
  | inl f ↦ elim (Option-cases (read_line chunks)) [
    | inl g ↦ ground (arith, f, g, e)
    | inr ((l, r), g) ↦ ground (arith, f, g, e, read_line_shorter chunks l r g)
  ]
]

module _ (string_of : List ℕ → String) (fetch : ℕ → List PathInfo) (port : ℕ) (client : Client)
    (turn : ℕ → Turn) (deadline : ℕ) where
  -- The loop of a keep-alive connection ends for want of requests, an early return or the deadline, never
  -- for want of fuel: two amounts of fuel above the number of chunks give the same run.
  pub keep_alive_loop_fuel :
      (n k i : ℕ) (chunks : List (List ℕ)) (user_id : ℕ) (s : Proxy)
      → length chunks < n
      → length chunks < k
      → keep_alive_loop string_of fetch port client turn deadline n i chunks user_id s
        ≡ keep_alive_loop string_of fetch port client turn deadline k i chunks user_id s
  unfolding keep_alive_loop
  keep_alive_loop_fuel zero k i chunks user_id s h l = absurd (omega arith)
  keep_alive_loop_fuel (suc n) zero i chunks user_id s h l = absurd (omega arith)
  keep_alive_loop_fuel (suc n) (suc k) i chunks user_id s h l =
      elim (Option-cases (read_line chunks)) [
        | inl e ↦ rw (e, keep_alive_loop) refl
        | inr ((line, rest), e) ↦
            let shorter = read_line_shorter chunks line rest e in
            elim (Run-cases (serve_tcp string_of fetch port client (turn i) user_id line s)) [
              | inr p ↦ rw (e, keep_alive_loop) (rw p refl)
              | inl (r, p) ↦
                  let next = next_req_id client r.0 in
                  rw (e, keep_alive_loop)
                    (rw p (
                      rw
                        (keep_alive_loop_fuel n k (suc i) rest next.1 next.0 (omega arith)
                          (omega arith))
                        refl))
            ]
      ]
