-- ===== src/Request/Admission.antt =====
-- StartServerRun, InitWorkerPool and NewTCPServer of data-proxy/server/tcp-server.go: where an accepted
-- connection goes. A connection is a number. `longConnSem` is the list of the long connections that are
-- served, `connChan` the queue of the short ones.
use sky_accel.Base.{
  ℕ, suc, ◌+◌, ◌≤◌, ◌<◌, ◌≡◌, ap, List, [], ◌∷◌, ◌++◌, Option, none, some, Bool, arith, ltb, ◌==◌,
  if◌then◌else◌, length, length-append,
}

abbrev pub long_conn_limit : ℕ
long_conn_limit = 512

abbrev pub max_pending_conns : ℕ
max_pending_conns = 100000

abbrev pub default_keep_alive_time : ℕ
default_keep_alive_time = 30000

-- TCPServer, without its protocol, "tcp".
pub record TcpServer : Type 0 where
  pub keep_alive : Bool
  pub keep_alive_time : ℕ

-- NewTCPServer
unfoldable pub new_tcp_server : Bool → ℕ → TcpServer
new_tcp_server keep_alive time = record {
  keep_alive = keep_alive;
  keep_alive_time = if time == 0 then default_keep_alive_time else time;
}

-- The number of workers, at least one: `none` stands for a number that is not positive.
abbrev pub worker_count : Option ℕ → ℕ
worker_count none = 1000
worker_count (some n) = if n == 0 then 1000 else n

-- The connections: in the queue, with the workers, in goroutines of their own, refused, and done.
pub record Conns : Type 0 where
  pub queue : List ℕ
  pub working : List ℕ
  pub long : List ℕ
  pub refused : List ℕ
  pub finished : List ℕ

-- A turn of StartServerRun on a connection.
unfoldable pub admit : TcpServer → ℕ → Conns → Conns
admit t conn s =
    if t.keep_alive
    then if ltb (length s.long) long_conn_limit
      then record s { long = conn ∷ s.long }
      else record s { refused = conn ∷ s.refused }
    else if ltb (length s.queue) max_pending_conns
    then record s { queue = s.queue ++ conn ∷ [] }
    else record s { refused = conn ∷ s.refused }

-- What happens: a server accepts a connection, a free worker of `workers` takes the first of the queue,
-- a worker is done with a connection, a goroutine is done with a long one.
pub data Step (workers : ℕ) : Conns → Conns → Type 0 where
  accepts : (t : TcpServer) (conn : ℕ) (s : Conns) → Step workers s (admit t conn s)
  takes :
      (conn : ℕ) (rest : List ℕ) (s : Conns)
      → s.queue ≡ conn ∷ rest
      → length s.working < workers
      → Step workers s (record s { queue = rest; working = conn ∷ s.working })
  ends :
      (conn : ℕ) (before behind : List ℕ) (s : Conns)
      → s.working ≡ before ++ conn ∷ behind
      → Step workers s (record s { working = before ++ behind; finished = conn ∷ s.finished })
  ends_long :
      (conn : ℕ) (before behind : List ℕ) (s : Conns)
      → s.long ≡ before ++ conn ∷ behind
      → Step workers s (record s { long = before ++ behind; finished = conn ∷ s.finished })

pub data Reaches (workers : ℕ) : Conns → Conns → Type 0 where
  here : (s : Conns) → Reaches workers s s
  step : (s t u : Conns) → Reaches workers s t → Step workers t u → Reaches workers s u

-- How often a connection stands in a list.
abbrev pub count : ℕ → List ℕ → ℕ
count c [] = 0
count c (d ∷ ds) = let rest = count c ds in if c == d then suc rest else rest

abbrev pub places : ℕ → Conns → ℕ
places c s =
    count c s.queue + count c s.working + count c s.long + count c s.refused + count c s.finished

-- The bounds of the server.
pub record IsBounded (workers : ℕ) (s : Conns) : Type 0 where
  pub queue : length s.queue ≤ max_pending_conns
  pub working : length s.working ≤ workers
  pub long : length s.long ≤ long_conn_limit

count-append : (c : ℕ) (xs ys : List ℕ) → count c (xs ++ ys) ≡ count c xs + count c ys
count-append c [] ys = omega arith
count-append c (x ∷ xs) ys = ground (arith, count-append c xs ys)

-- A turn of the accept loop puts the connection into exactly one place more, and moves no other.
pub places-admit :
    (t : TcpServer) (conn : ℕ) (s : Conns) (c : ℕ)
    → places c (admit t conn s) ≡ places c s + (if c == conn then 1 else 0)
unfolding admit
places-admit t conn s c = ground (arith, count-append c s.queue (conn ∷ []))

Step-IsBounded :
    (workers : ℕ) (s t : Conns) → Step workers s t → IsBounded workers s → IsBounded workers t
unfolding admit
Step-IsBounded workers _ _ (accepts server conn s) b = record {
  queue = ground (arith, b.queue, length-append s.queue (conn ∷ []));
  working = ground (arith, b.working);
  long = ground (arith, b.long);
}
Step-IsBounded workers _ _ (takes conn rest s e h) b = record {
  queue = omega (arith, b.queue, ap length e);
  working = omega arith;
  long = b.long;
}
Step-IsBounded workers _ _ (ends conn before behind s e) b = record {
  queue = b.queue;
  working = omega (
    arith,
    b.working,
    ap length e,
    length-append before (conn ∷ behind),
    length-append before behind,
  );
  long = b.long;
}
Step-IsBounded workers _ _ (ends_long conn before behind s e) b = record {
  queue = b.queue;
  working = b.working;
  long = omega (
    arith,
    b.long,
    ap length e,
    length-append before (conn ∷ behind),
    length-append before behind,
  );
}

-- No step makes a connection disappear.
Step-places : (workers : ℕ) (s t : Conns) → Step workers s t → (c : ℕ) → places c s ≤ places c t
Step-places workers _ _ (accepts server conn s) c = omega (arith, places-admit server conn s c)
Step-places workers _ _ (takes conn rest s e h) c = ground (arith, ap (count c) e)
Step-places workers _ _ (ends conn before behind s e) c =
    ground
      (arith, ap (count c) e, count-append c before (conn ∷ behind), count-append c before behind)
Step-places workers _ _ (ends_long conn before behind s e) c =
    ground
      (arith, ap (count c) e, count-append c before (conn ∷ behind), count-append c before behind)

-- Whatever connections come, and in whatever order workers and goroutines run, from a state within the
-- bounds: at most 100000 short connections wait, at most as many are served as there are workers, and at
-- most 512 long ones; and a connection that was accepted stays somewhere, in the queue, with a worker,
-- in a goroutine, or refused or finished.
pub Reaches-IsBounded :
    (workers : ℕ) (s t : Conns)
    → Reaches workers s t
    → IsBounded workers s
    → IsBounded workers t × ((c : ℕ) → places c s ≤ places c t)
Reaches-IsBounded workers _ _ (here s) b = (b, λ c. omega arith)
Reaches-IsBounded workers _ _ (step s m t r e) b =
    let (bounded, kept) = Reaches-IsBounded workers s m r b in
    (Step-IsBounded workers m t e bounded, λ c. omega (arith, kept c, Step-places workers m t e c))
