-- ===== src/Go/Net.antt =====
-- `net.SplitHostPort`.
use sandcastle.Prelude.{not, ◌||◌, Option, none, some, [], ◌∷◌, Str, ◌==◌, if◌then◌else◌}
use sandcastle.Go.Strings.{cut, cut_last, contains}

-- The port behind "]:", where that colon is the last one and no bracket follows.
unfoldable pub bracket_port : Str → Str → Option (Str × Str)
bracket_port host [] = none
bracket_port host (c ∷ port) =
    if not (c == b':')
      || (contains b':' port || (contains b'[' host || (contains b'[' port || contains b']' port)))
    then none
    else some (host, port)

unfoldable pub plain_port : Option (Str × Str) → Option (Str × Str)
plain_port none = none
plain_port (some (host, port)) =
    if contains b':' host
      || (contains b'[' host || (contains b']' host || (contains b'[' port || contains b']' port)))
    then none
    else some (host, port)

unfoldable pub bracketed : Option (Str × Str) → Option (Str × Str)
unfolding bracket_port
bracketed none = none
bracketed (some (host, rest)) = bracket_port host rest

-- host:port or [host]:port; none where Go returns an error.
unfoldable pub split_host_port : Str → Option (Str × Str)
unfolding bracketed plain_port cut cut_last contains
split_host_port [] = none
split_host_port (c ∷ s) =
    if c == b'[' then bracketed (cut b']' s) else plain_port (cut_last b':' (c ∷ s))
