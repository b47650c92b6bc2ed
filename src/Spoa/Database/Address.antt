-- ===== src/Spoa/Database/Address.antt =====
-- Addresses that arrive as text.
use haproxy_spoa_firehol_mmd.Prelude.{ℕ, ◌<◌, ◌≡◌, refl, List, [], ◌∷◌, ◌++◌, arith}
use haproxy_spoa_firehol_mmd.Prelude.Lists.{length, length-append}
use haproxy_spoa_firehol_mmd.Utils.Ipv4.Spelling.{quad_text, parse_ipv4-quad_text}
use haproxy_spoa_firehol_mmd.Spoa.Database.{
  Library, c_string, inet6_addrstrlen, parse_ipv6, lookup_ipv4, lookup_string,
}

c_string-append_nul : (text junk : List ℕ) → c_string (text ++ (0 ∷ junk)) ≡ c_string text
unfolding c_string
c_string-append_nul [] junk = refl
c_string-append_nul (c ∷ cs) junk = ground (arith, c_string-append_nul cs junk)

-- `parse_ipv6` looks at nothing behind a NUL in the text, as long as the whole is shorter than the buffer
-- for an address: with or without it, a text that is not empty gives the same address or none.
pub parse_ipv6_nul :
    (lib : Library) (text junk : List ℕ)
    → 0 < length text
    → length (text ++ (0 ∷ junk)) < inet6_addrstrlen
    → parse_ipv6 lib (text ++ (0 ∷ junk)) ≡ parse_ipv6 lib text
unfolding parse_ipv6
parse_ipv6_nul lib text junk h short =
    let sum = length-append text (0 ∷ junk) in
    rw (c_string-append_nul text junk) (ground (arith, sum))

-- A string argument that is an IPv4 address in its usual spelling is looked up by its octets, exactly
-- like an argument of type IPv4; no name is resolved.
pub lookup_string-quad_text :
    (lib : Library) (a b c d : ℕ)
    → a < 256
    → b < 256
    → c < 256
    → d < 256
    → lookup_string lib (quad_text a b c d) ≡ lookup_ipv4 lib (a ∷ b ∷ c ∷ d ∷ [])
unfolding lookup_string
lookup_string-quad_text lib a b c d ha hb hc hd =
    rw (parse_ipv4-quad_text a b c d ha hb hc hd, lookup_string)
