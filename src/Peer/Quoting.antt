-- ===== src/Peer/Quoting.antt =====
-- How crates/workbench-runtime/src/peer.rs quotes the words of a remote command.
use mathlib.Core.List.{append-nil, append_assoc}
use distributed_workbench.Base.{
  ℕ, Str, bytes, true, false, Option, none, some, if◌then◌else◌, ◌≡◌, refl, arith, List, [], ◌∷◌,
  ◌++◌, starts_with, Bool-cases, inl, inr, ◌∙◌, ap,
}
use distributed_workbench.Base.Replace.{replace, replace_from}
use distributed_workbench.Base.Trim.{is}
use distributed_workbench.Peer.{PeerConnectConfig, is_id_byte}

unfoldable pub shell_single_quote : Str → Str
shell_single_quote value = replace (b'\'' ∷ []) (bytes "'\\''") value

unfoldable pub powershell_single_quote : Str → Str
powershell_single_quote value = replace (b'\'' ∷ []) (bytes "''") value

-- A quoted value in a format string, and what comes behind it.
abbrev quoted : Str → Str → Str
quoted value rest = b'\'' ∷ (shell_single_quote value ++ b'\'' ∷ rest)

abbrev separator : PeerConnectConfig → Str
separator c = if c.remote_windows then bytes "\\" else bytes "/"

-- `remote_local_controller` and `remote_local_executor`, and the sockets of the fabric.
abbrev pub remote_local : PeerConnectConfig → (role : Str) → Str
remote_local c role = c.remote_state_root ++ (separator c ++ (role ++ bytes ".sock"))

abbrev pub remote_fabric : PeerConnectConfig → (role : Str) → Str
remote_fabric c role =
    c.remote_state_root
    ++ (separator c
        ++ (bytes "fabric"
            ++ (separator c ++ (c.local_id ++ (bytes "-" ++ (role ++ bytes ".sock"))))))

-- The command for a host that is no Windows.
unfoldable pub remote_command : PeerConnectConfig → Str
remote_command c = quoted c.remote_executable (
    bytes " peer accept --id "
    ++ quoted c.local_id (
        bytes " --local-id "
        ++ quoted c.peer_id (
            bytes " --local-controller-socket "
            ++ quoted (remote_local c (bytes "controller")) (
                bytes " --local-executor-socket "
                ++ quoted (remote_local c (bytes "executor")) (
                    bytes " --expose-controller-socket "
                    ++ quoted (remote_fabric c (bytes "controller")) (
                        bytes " --expose-executor-socket "
                        ++ quoted (remote_fabric c (bytes "executor")) []))))))

-- A POSIX shell's reading of a command: between words, in a word, behind a backslash, in quotes. A
-- byte outside quotes must be one that no shell takes for more than itself.
pub data Mode : Type 0 where
  gap bare escaped inside : Mode

abbrev with_word : Str → Option (List Str) → Option (List Str)
with_word w none = none
with_word w (some ws) = some (w ∷ ws)

unfoldable pub shell_words : Mode → (word : Str) → Str → Option (List Str)
shell_words gap w [] = some []
shell_words bare w [] = some (w ∷ [])
shell_words escaped w [] = none
shell_words inside w [] = none
shell_words gap w (c ∷ s) = elim (is c b' ') [
  | true ↦ shell_words gap [] s
  | false ↦ elim (is c b'\'') [
    | true ↦ shell_words inside [] s
    | false ↦ elim (is c b'\\') [
      | true ↦ shell_words escaped [] s
      | false ↦ elim (is_id_byte c) [ true ↦ shell_words bare (c ∷ []) s | false ↦ none ]
    ]
  ]
]
shell_words bare w (c ∷ s) = elim (is c b' ') [
  | true ↦ with_word w (shell_words gap [] s)
  | false ↦ elim (is c b'\'') [
    | true ↦ shell_words inside w s
    | false ↦ elim (is c b'\\') [
      | true ↦ shell_words escaped w s
      | false ↦ elim (is_id_byte c) [ true ↦ shell_words bare (w ++ c ∷ []) s | false ↦ none ]
    ]
  ]
]
shell_words escaped w (c ∷ s) = shell_words bare (w ++ c ∷ []) s
shell_words inside w (c ∷ s) = elim (is c b'\'') [
  | true ↦ shell_words bare w s
  | false ↦ shell_words inside (w ++ c ∷ []) s
]

starts_with-byte : (c b : ℕ) (v : Str) → starts_with (c ∷ v) (b ∷ []) ≡ is c b
unfolding starts_with
starts_with-byte c b v = ground arith

quote-cons :
    (c : ℕ) (to v : Str)
    → replace (b'\'' ∷ []) to (c ∷ v)
      ≡ (if is c b'\'' then to ++ replace (b'\'' ∷ []) to v else c ∷ replace (b'\'' ∷ []) to v)
unfolding replace replace_from
quote-cons c to v =
    rw (starts_with-byte c b'\'' v, replace_from)
      (elim (Bool-cases (is c b'\'')) [ inl quote ↦ rw quote refl | inr plain ↦ rw plain refl ])

quote-nil : (to : Str) → replace (b'\'' ∷ []) to [] ≡ []
unfolding replace replace_from
quote-nil to = refl

is-eq : (a b : ℕ) → is a b ≡ true → a ≡ b
is-eq a b h = ground arith

inside-step :
    (c : ℕ) (w s : Str)
    → is c b'\'' ≡ false
    → shell_words inside w (c ∷ s) ≡ shell_words inside (w ++ c ∷ []) s
unfolding shell_words
inside-step c w s h = ground arith

-- A shell reads a quoted value as the value itself, and goes on in the same word behind it.
shell_words-quoted :
    (v w rest : Str)
    → shell_words inside w (shell_single_quote v ++ b'\'' ∷ rest) ≡ shell_words bare (w ++ v) rest
unfolding shell_words shell_single_quote
shell_words-quoted [] w rest =
    rw (quote-nil (bytes "'\\''"), shell_single_quote) (rw (append-nil w) refl)
shell_words-quoted (c ∷ v) w rest = elim (Bool-cases (is c b'\'')) [
  | inl quote ↦
      let e : c ≡ b'\'' = is-eq c b'\'' quote in
      rw (quote-cons c (bytes "'\\''") v, shell_single_quote)
        (rw quote (
          rw e (
            shell_words-quoted v (w ++ b'\'' ∷ []) rest
            ∙ ap (λ u. shell_words bare u rest) (append_assoc w (b'\'' ∷ []) v))))
  | inr plain ↦
      rw (quote-cons c (bytes "'\\''") v, shell_single_quote)
        (rw plain (
          inside-step c w (shell_single_quote v ++ b'\'' ∷ rest) plain
          ∙ shell_words-quoted v (w ++ c ∷ []) rest
          ∙ ap (λ u. shell_words bare u rest) (append_assoc w (c ∷ []) v)))
]

-- The remote command, as a shell reads it, has the words that were meant, whatever bytes they have.
pub shell_words-remote_command :
    (c : PeerConnectConfig)
    → shell_words gap [] (remote_command c)
      ≡ some (
          c.remote_executable
          ∷ bytes "peer"
          ∷ bytes "accept"
          ∷ bytes "--id"
          ∷ c.local_id
          ∷ bytes "--local-id"
          ∷ c.peer_id
          ∷ bytes "--local-controller-socket"
          ∷ remote_local c (bytes "controller")
          ∷ bytes "--local-executor-socket"
          ∷ remote_local c (bytes "executor")
          ∷ bytes "--expose-controller-socket"
          ∷ remote_fabric c (bytes "controller")
          ∷ bytes "--expose-executor-socket"
          ∷ remote_fabric c (bytes "executor")
          ∷ [])
unfolding remote_command shell_words
shell_words-remote_command c = simp shell_words-quoted
