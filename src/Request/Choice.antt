-- ===== src/Request/Choice.antt =====
-- Which path a request takes, and the hops, the key and the port that its message gets.
use sky_accel.Base.{
  ℕ, ◌+◌, ◌-◌, ◌*◌, ◌≤◌, ◌<◌, ◌≡◌, ◌≢◌, ◌⊎◌, inl, inr, refl, ap, List, [], ◌∷◌, ◌++◌, none, some,
  arith, ltb, ◌==◌, length, All, Bool-cases,
}
use mathlib.Core.Path.{ap₂}
use sky_accel.Request.{
  PathInfo, split, find_path, choose_path, strip_hop, strip_hops, parse_digits, parse_port,
}

-- A path that is not longer than a client and an origin.
abbrev pub IsShort : PathInfo → Type 0
IsShort p = length p.hops ≤ 2

-- `q` is the first path of `ps` that is not short.
pub record IsFirstLong (ps : List PathInfo) (q : PathInfo) : Type 0 where
  pub before : List PathInfo
  pub behind : List PathInfo
  pub at : ps ≡ before ++ q ∷ behind
  pub short : All IsShort before
  pub long : 2 < length q.hops

find_path-cases :
    (ps : List PathInfo)
    → ((q : PathInfo) × (find_path ps ≡ some q) × IsFirstLong ps q)
      ⊎ ((find_path ps ≡ none) × All IsShort ps)
unfolding find_path
find_path-cases [] = inr (refl, tt)
find_path-cases (p ∷ ps) = elim (Bool-cases (ltb 2 (length p.hops))) [
  | inl e ↦ inl (
    p,
    rw e refl,
    record { before = []; behind = ps; at = refl; short = tt; long = ground (arith, e) },
  )
  | inr e ↦ elim (find_path-cases ps) [
    | inl (q, f, i) ↦ inl (
      q,
      rw e f,
      record {
        before = p ∷ i.before;
        behind = i.behind;
        at = ap (λ l. p ∷ l) i.at;
        short = (ground (arith, e), i.short);
        long = i.long;
      },
    )
    | inr (f, a) ↦ inr (rw e f, (ground (arith, e), a))
  ]
]

-- With at least one path, the path of a TCP request is the first one with more than two hops; if every
-- path has at most two hops, it is the first path.
pub choose_path-first :
    (p : PathInfo) (ps : List PathInfo)
    → ((q : PathInfo) × (choose_path (p ∷ ps) ≡ some q) × IsFirstLong (p ∷ ps) q)
      ⊎ ((choose_path (p ∷ ps) ≡ some p) × All IsShort (p ∷ ps))
unfolding choose_path
choose_path-first p ps = elim (find_path-cases (p ∷ ps)) [
  | inl (q, f, i) ↦ inl (q, rw (f, choose_path) refl, i)
  | inr (f, a) ↦ inr (rw (f, choose_path) refl, a)
]

-- A text without a byte.
abbrev pub Free : ℕ → List ℕ → Type 0
Free sep = All (λ c. c ≢ sep)

pub split-Free : (sep : ℕ) (text : List ℕ) → Free sep text → split sep text ≡ (text, [])
unfolding split
split-Free sep [] f = refl
split-Free sep (c ∷ cs) f = ground (arith, f.0, split-Free sep cs f.1)

pub split-append :
    (sep : ℕ) (text rest : List ℕ)
    → Free sep text
    → split sep (text ++ sep ∷ rest) ≡ (text, (split sep rest).0 ∷ (split sep rest).1)
unfolding split
split-append sep [] rest f = ground arith
split-append sep (c ∷ cs) rest f = ground (arith, f.0, split-append sep cs rest f.1)

split_first-Free : (sep : ℕ) (text : List ℕ) → Free sep (split sep text).0
unfolding split
split_first-Free sep [] = tt
split_first-Free sep (c ∷ cs) = elim (Bool-cases (c == sep)) [
  | inl e ↦ rw e tt
  | inr e ↦ rw e (ground (arith, e), split_first-Free sep cs)
]

split_single : (sep : ℕ) (text : List ℕ) → (split sep text).1 ≡ [] → (split sep text).0 ≡ text
unfolding split
split_single sep [] e = refl
split_single sep (c ∷ cs) e = elim (Bool-cases (c == sep)) [
  | inl h ↦ cc (rw h at e)
  | inr h ↦ rw h (ap (λ l. c ∷ l) (split_single sep cs (rw h at e)))
]

nil_or_cons : (l : List (List ℕ)) → (l ≡ []) ⊎ ((a : List ℕ) × (t : List (List ℕ)) × (l ≡ a ∷ t))
nil_or_cons [] = inl refl
nil_or_cons (a ∷ t) = inr (a, t, refl)

strip_hop-Free : (port hop : List ℕ) → Free b':' (strip_hop port hop).0
unfolding strip_hop
strip_hop-Free port hop = elim (nil_or_cons (split b':' hop).1) [
  | inl e ↦ rw (e, strip_hop) (rw (← split_single b':' hop e) (split_first-Free b':' hop))
  | inr (a, t, e) ↦ rw (e, strip_hop) (split_first-Free b':' hop)
]

strip_hop-plain : (port hop : List ℕ) → Free b':' hop → strip_hop port hop ≡ (hop, port)
unfolding strip_hop
strip_hop-plain port hop f = rw (split-Free b':' hop f, strip_hop) refl

strip_hop-port :
    (port host text : List ℕ)
    → Free b':' host
    → Free b':' text
    → strip_hop port (host ++ b':' ∷ text) ≡ (host, text)
unfolding strip_hop
strip_hop-port port host text f g =
    let e = split-append b':' host text f in
    rw (ap (λ r. r.1) e, strip_hop)
      (ap₂ (λ a b. (a, b)) (ap (λ r. r.0) e) (ap (λ r. r.0) (split-Free b':' text g)))

-- The hops of a message are as many as those of its path, and none of them has a port.
pub strip_hops-Free :
    (hops : List (List ℕ)) (port : List ℕ)
    → (length (strip_hops port hops).0 ≡ length hops) × All (Free b':') (strip_hops port hops).0
unfolding strip_hops
strip_hops-Free [] port = (refl, tt)
strip_hops-Free (h ∷ hs) port =
    let r = strip_hops-Free hs (strip_hop port h).1 in
    (omega (arith, r.0), (strip_hop-Free port h, r.1))

-- A path whose hops have no port but the last, which is an address and a port: the message has the
-- addresses as its hops, and the text of the port.
pub strip_hops-origin :
    (hops : List (List ℕ)) (port origin text : List ℕ)
    → All (Free b':') hops
    → Free b':' origin
    → Free b':' text
    → strip_hops port (hops ++ (origin ++ b':' ∷ text) ∷ []) ≡ (hops ++ origin ∷ [], text)
unfolding strip_hops
strip_hops-origin [] port origin text f g h = rw (strip_hop-port port origin text g h) refl
strip_hops-origin (hop ∷ hops) port origin text f g h =
    rw (strip_hop-plain port hop f.0) (rw (strip_hops-origin hops port origin text f.1 g h) refl)

parse_digits-le : (n : ℕ) (text : List ℕ) → n ≤ 65535 → parse_digits n text ≤ 65535
unfolding parse_digits
parse_digits-le n [] h = h
parse_digits-le n (c ∷ cs) h = ground (arith, parse_digits-le (n * 10 + (c - b'0')) cs)

pub parse_port-le : (text : List ℕ) → parse_port text ≤ 65535
unfolding parse_port
parse_port-le [] = omega arith
parse_port-le (c ∷ cs) = parse_digits-le 0 (c ∷ cs) (omega arith)
