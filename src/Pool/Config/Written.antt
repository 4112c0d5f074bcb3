-- ===== src/Pool/Config/Written.antt =====
-- src/server/db/connectionpool.cpp, `loadConfig`: a file that is written from settings.
use cluster_chatroom_project.Prelude.{
  ℕ, ◌^◌, ◌<◌, ◌≡◌, ◌≢◌, refl, subst, inl, inr, true, Option-cases, Option, some, List, [], ◌∷◌,
  ◌++◌, append-nil, Bytes, codes, All, ◌>>=◌, arith,
}
use cluster_chatroom_project.Prelude.Int.{ℤ, pos}
use cluster_chatroom_project.Conversation.Decimal.{to_string, Lacks, to_string-Lacks}
use cluster_chatroom_project.Text.{cut-append, split_lines, split_lines-append}
use cluster_chatroom_project.Text.Integers.{IsInt, parse_int, parse_int-to_string, Stops-nil}
use cluster_chatroom_project.Pool.{Settings}
use cluster_chatroom_project.Pool.Config.{
  Environment, defaults, from_environment, assign, read_line, read_lines, read_file, or_default,
  is_given, load_config,
}

-- A line for each of the eight keys.
abbrev pub entries : Settings → List (Bytes × Bytes)
entries s =
    (codes "host", s.host)
    ∷ (codes "user", s.user)
    ∷ (codes "password", s.passwd)
    ∷ (codes "dbname", s.dbname)
    ∷ (codes "port", to_string (pos s.port))
    ∷ (codes "initSize", to_string s.init_size)
    ∷ (codes "maxSize", to_string s.max_size)
    ∷ (codes "maxIdleTime", to_string s.max_idle_time)
    ∷ []

abbrev pub write_entries : List (Bytes × Bytes) → Bytes
write_entries [] = []
write_entries ((k, v) ∷ more) = (k ++ b'=' ∷ v) ++ b'\n' ∷ write_entries more

abbrev pub write : Settings → Bytes
write s = write_entries (entries s)

-- A key can stand in a line: no line break, no separator, and not a comment.
abbrev IsKey : Bytes → Type 0
IsKey [] = ⊥
IsKey (c ∷ cs) = (c ≢ b'#') × (Lacks b'=' (c ∷ cs) × Lacks b'\n' (c ∷ cs))

abbrev IsEntry : Bytes × Bytes → Type 0
IsEntry (k, v) = IsKey k × Lacks b'\n' v

Lacks-append : (c : ℕ) (xs ys : Bytes) → Lacks c xs → Lacks c ys → Lacks c (xs ++ ys)
Lacks-append c [] ys a b = b
Lacks-append c (x ∷ xs) ys a b = (a.0, Lacks-append c xs ys a.1 b)

read_line-entry :
    (k v : Bytes) (s : Settings) → IsKey k → read_line (k ++ b'=' ∷ v) s ≡ assign k v s
unfolding read_line
read_line-entry [] v s h = elim h [ ]
read_line-entry (c ∷ cs) v s h = rw (cut-append b'=' (c ∷ cs) v h.1.0) (ground (arith, h.0))

-- The assignments of the entries, one after the other.
abbrev assign_all : List (Bytes × Bytes) → Settings → Option Settings
assign_all [] s = some s
assign_all ((k, v) ∷ more) s = do t ← assign k v s; assign_all more t

Lacks-entry : (k v : Bytes) → IsEntry (k, v) → Lacks b'\n' (k ++ b'=' ∷ v)
Lacks-entry [] v h = elim h.0 [ ]
Lacks-entry (c ∷ cs) v h = Lacks-append b'\n' (c ∷ cs) (b'=' ∷ v) h.0.1.1 (omega arith, h.1)

read_lines-entries :
    (es : List (Bytes × Bytes)) (s : Settings)
    → All IsEntry es
    → read_lines (split_lines (write_entries es)) s ≡ assign_all es s
unfolding read_lines
read_lines-entries [] s h = unfold split_lines in refl
read_lines-entries ((k, v) ∷ es) s h =
    rw
      (
        split_lines-append (k ++ b'=' ∷ v) (write_entries es) (Lacks-entry k v h.0),
        read_line-entry k v s h.0.0,
      )
      (elim (Option-cases (assign k v s)) [
        | inl e ↦ rw e refl
        | inr (t, e) ↦ rw e (read_lines-entries es t h.1)
      ])

-- Settings that can be written: texts in one line, and numbers in their range.
pub record IsWritable (s : Settings) : Type 0 where
  pub host_line : Lacks b'\n' s.host
  pub user_line : Lacks b'\n' s.user
  pub passwd_line : Lacks b'\n' s.passwd
  pub dbname_line : Lacks b'\n' s.dbname
  pub port_range : s.port < 2 ^ 16
  pub init_range : IsInt s.init_size
  pub max_range : IsInt s.max_size
  pub idle_range : IsInt s.max_idle_time

digit_line : (z : ℤ) → Lacks b'\n' (to_string z)
digit_line z = to_string-Lacks b'\n' z (omega arith, omega arith)

entries-IsEntry : (s : Settings) → IsWritable s → All IsEntry (entries s)
entries-IsEntry s w = (
  (omega arith, w.host_line),
  (
    (omega arith, w.user_line),
    (
      (omega arith, w.passwd_line),
      (
        (omega arith, w.dbname_line),
        (
          (omega arith, digit_line (pos s.port)),
          (
            (omega arith, digit_line s.init_size),
            ((omega arith, digit_line s.max_size), ((omega arith, digit_line s.max_idle_time), tt)),
          ),
        ),
      ),
    ),
  ),
)

read_int : (z : ℤ) → IsInt z → parse_int (to_string z) ≡ some z
read_int z i =
    subst (λ b. parse_int b ≡ some z) (append-nil (to_string z))
      (parse_int-to_string z [] i Stops-nil)

assign_all-entries : (s t : Settings) → IsWritable s → assign_all (entries s) t ≡ some s
unfolding assign
assign_all-entries s t w =
    rw
      (
        read_int (pos s.port) (omega (arith, w.port_range)),
        read_int s.init_size w.init_range,
        read_int s.max_size w.max_range,
        read_int s.max_idle_time w.idle_range,
      )
      (ground (arith, w.port_range))

given_text : (v d : Bytes) → v ≢ [] → (or_default v d ≡ v) × (is_given v ≡ true)
given_text [] d h = absurd (h refl)
given_text (c ∷ cs) d h = (refl, refl)

-- Settings that can be written, one per line, with a host, a user and a database, are read back
-- from the configuration file as they were, whatever the environment has: the file has priority
-- over the environment variables, against the comment in `loadConfig`.
pub load_config-write :
    (s : Settings) (env : Environment)
    → IsWritable s
    → s.host ≢ []
    → s.user ≢ []
    → s.dbname ≢ []
    → load_config env (some (write s)) ≡ some (s, true)
unfolding load_config read_file
load_config-write s env w h u d =
    rw
      (
        read_lines-entries (entries s) (from_environment env defaults) (entries-IsEntry s w),
        assign_all-entries s (from_environment env defaults) w,
      )
      (ground (
        arith,
        given_text s.host (codes "127.0.0.1") h,
        given_text s.user [] u,
        given_text s.dbname (codes "chat") d,
      ))
