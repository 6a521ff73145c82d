-- ===== src/GoLib/Net.antt =====
-- Functions of Go's package net: SplitHostPort and JoinHostPort.
use mcp_searxng_relay.Base.{
  [], ℕ, suc, ◌-◌, ◌≡◌, refl, ◌∷◌, ◌++◌, Option, none, some, Text, codes, ◌==◌, if◌then◌else◌, take,
  drop, get_elem?,
}
use mcp_searxng_relay.GoLib.Strings.{index_byte, last_index_byte, contains_byte}

-- The last checks of SplitHostPort, which both of its branches run: no bracket is left over in
-- what stands behind `j` and `k`.
split_checked : Text → ℕ → Text → ℕ → ℕ → Option (Text × Text)
split_checked hostport i host j k =
    if contains_byte (drop j hostport) b'['
    then none
    else if contains_byte (drop k hostport) b']'
    then none
    else some (host, drop (suc i) hostport)

split_bracketed : Text → ℕ → Option (Text × Text)
unfolding split_checked
split_bracketed hostport i = elim (index_byte hostport b']') [
  | none ↦ none
  | some end ↦
      if suc end == i
      then split_checked hostport i (take (end - 1) (drop 1 hostport)) 1 (suc end)
      else none
]

-- net.SplitHostPort, with `none` for each of its errors.
unfoldable pub split_host_port : Text → Option (Text × Text)
unfolding split_bracketed split_checked index_byte last_index_byte contains_byte
split_host_port hostport = elim (last_index_byte hostport b':') [
  | none ↦ none
  | some i ↦ elim (get_elem? hostport 0) [
    | none ↦ none
    | some c ↦
        if c == b'['
        then split_bracketed hostport i
        else if contains_byte (take i hostport) b':'
        then none
        else split_checked hostport i (take i hostport) 0 0
  ]
]

-- net.JoinHostPort
unfoldable pub join_host_port : Text → Text → Text
unfolding contains_byte
join_host_port host port =
    if contains_byte host b':' then b'[' ∷ (host ++ b']' ∷ b':' ∷ port) else host ++ b':' ∷ port

pub split_host_port-nil : split_host_port [] ≡ none
unfolding split_host_port
split_host_port-nil = refl

split_v4 : split_host_port (codes "10.0.0.1:80") ≡ some (codes "10.0.0.1", codes "80")
unfolding split_host_port
split_v4 = refl

split_v6 : split_host_port (codes "[::1]:443") ≡ some (codes "::1", codes "443")
unfolding split_host_port
split_v6 = refl

split_no_port : split_host_port (codes "wiki.corp") ≡ none
unfolding split_host_port
split_no_port = refl
