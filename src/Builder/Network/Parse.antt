-- ===== src/Builder/Network/Parse.antt =====
-- The networks that are accepted.
use haproxy_spoa_firehol_mmd.Prelude.{
  ℕ, ◌+◌, ◌<◌, ◌≤◌, ◌≡◌, ◌==◌, refl, ap, false, List, [], ◌∷◌, ◌++◌, Option, none, some, arith, ltb,
  inl, inr, Bool-cases, Option-cases, le→ltb,
}
use haproxy_spoa_firehol_mmd.Prelude.Lists.{length, replicate, All, length-append}
use haproxy_spoa_firehol_mmd.Utils.Ipv4.{is_digit, parse_ipv4}
use haproxy_spoa_firehol_mmd.Utils.Ipv4.Spelling.{octet_text, quad_text, parse_ipv4-quad_text}
use haproxy_spoa_firehol_mmd.Utils.Ipv4.Canonical.{parse_ipv4_canonical}
use haproxy_spoa_firehol_mmd.Utils.Strings.{split_at}
use haproxy_spoa_firehol_mmd.Spoa.Database.{Library, c_string, parse_ipv6}
use haproxy_spoa_firehol_mmd.Builder.Network.{
  NetworkEntry, digits_value, parse_prefix, ipv4_entry, ipv6_entry, or_default, parse_address,
  parse_network,
}

-- `inet_pton` fills the 16 bytes that it gets.
abbrev pub FillsAddress : Library → Type 0
FillsAddress lib = (text octets : List ℕ) → lib.inet_pton text ≡ some octets → length octets ≡ 16

-- An entry for the trie of a database.
abbrev pub IsEntry : ℕ → NetworkEntry → Type 0
IsEntry d e = (length e.bits ≡ 16) × (e.prefix_len ≤ 128) × (e.data_id ≡ d)

ipv4_entry-IsEntry :
    (ip_version d : ℕ) (v4 : List ℕ) (prefix : ℕ) (e : NetworkEntry)
    → length v4 ≡ 4
    → ipv4_entry ip_version d v4 prefix ≡ some e
    → IsEntry d e
unfolding ipv4_entry
ipv4_entry-IsEntry ip_version d v4 prefix e four h =
    ground (arith, length-append v4 (replicate 12 0), length-append (replicate 12 0) v4)

ipv6_entry-IsEntry :
    (lib : Library) (ip_version d : ℕ) (ip : List ℕ) (prefix : ℕ) (e : NetworkEntry)
    → FillsAddress lib
    → ipv6_entry lib ip_version d ip prefix ≡ some e
    → IsEntry d e
unfolding ipv6_entry parse_ipv6
ipv6_entry-IsEntry lib ip_version d ip prefix e fills h = ground (arith, fills (c_string ip) e.bits)

parse_address-IsEntry :
    (lib : Library) (ip_version d : ℕ) (ip : List ℕ) (p : Option ℕ) (e : NetworkEntry)
    → FillsAddress lib
    → parse_address lib ip_version d ip p ≡ some e
    → IsEntry d e
unfolding parse_address
parse_address-IsEntry lib ip_version d ip p e fills h = elim (Option-cases (parse_ipv4 ip)) [
  | inr (v4, eq) ↦
      let (a, b, c, f, spelled, _, _, _, _, _) = parse_ipv4_canonical ip v4 eq in
      ipv4_entry-IsEntry ip_version d v4 (or_default p 32) e (ap length spelled)
        (rw (eq, parse_address) at h)
  | inl eq ↦
      ipv6_entry-IsEntry lib ip_version d ip (or_default p 128) e fills
        (rw (eq, parse_address) at h)
]

-- A network that is accepted has an address of 16 bytes, a prefix that fits it, and the data given, so
-- it can be inserted.
pub parse_network_lem :
    (lib : Library) (ip_version : ℕ) (cidr : List ℕ) (d : ℕ) (e : NetworkEntry)
    → FillsAddress lib
    → parse_network lib ip_version cidr d ≡ some e
    → (length e.bits ≡ 16) × (e.prefix_len ≤ 128) × (e.data_id ≡ d)
unfolding parse_network
parse_network_lem lib ip_version cidr d e fills h = elim (Option-cases (split_at 47 cidr)) [
  | inl eq ↦ parse_address-IsEntry lib ip_version d cidr none e fills (rw (eq, parse_network) at h)
  | inr ((ip, text), eq) ↦ elim (Option-cases (parse_prefix text)) [
    | inl bad ↦ absurd (none_some e (rw (eq, bad, parse_network) at h))
    | inr (prefix, good) ↦
        parse_address-IsEntry lib ip_version d ip (some prefix) e fills
          (rw (eq, good, parse_network) at h)
  ]
]
  where
    none_some : (e : NetworkEntry) → none ≡ some e → ⊥
    none_some e h = cc

abbrev Lacks : ℕ → List ℕ → Type 0
Lacks b = All (λ c. (c == b) ≡ false)

split_at-append :
    (b : ℕ) (xs ys : List ℕ) → Lacks b xs → split_at b (xs ++ (b ∷ ys)) ≡ some (xs, ys)
unfolding split_at
split_at-append b [] ys h = ground arith
split_at-append b (x ∷ xs) ys (ne, h) = rw (ne, split_at-append b xs ys h, split_at) refl

Lacks-append : (b : ℕ) (xs ys : List ℕ) → Lacks b xs → Lacks b ys → Lacks b (xs ++ ys)
Lacks-append b [] ys h k = k
Lacks-append b (x ∷ xs) ys (ne, h) k = (ne, Lacks-append b xs ys h k)

octet_text-Lacks : (n : ℕ) → n < 256 → Lacks 47 (octet_text n)
unfolding octet_text
octet_text-Lacks n h = elim (Bool-cases (ltb n 10)) [
  | inl one ↦ rw one (ground arith, tt)
  | inr more ↦ rw more (elim (Bool-cases (ltb n 100)) [
    | inl two ↦ rw two (ground arith, (ground arith, tt))
    | inr three ↦ rw three (ground arith, (ground arith, (ground arith, tt)))
  ])
]

quad_text-Lacks :
    (a b c d : ℕ) → a < 256 → b < 256 → c < 256 → d < 256 → Lacks 47 (quad_text a b c d)
quad_text-Lacks a b c d ha hb hc hd = Lacks-append 47 (octet_text a) _ (octet_text-Lacks a ha) (
  refl,
  Lacks-append 47 (octet_text b) _ (octet_text-Lacks b hb) (
    refl,
    Lacks-append 47 (octet_text c) _ (octet_text-Lacks c hc) (refl, octet_text-Lacks d hd),
  ),
)

parse_prefix-octet_text : (n : ℕ) → n < 100 → parse_prefix (octet_text n) ≡ some n
unfolding parse_prefix octet_text digits_value is_digit
parse_prefix-octet_text n h = ground arith

-- Every IPv4 network in its usual spelling is accepted, at ::/96 in an IPv6 database.
pub parse_network-quad_text :
    (lib : Library) (a b c d n data_id : ℕ)
    → a < 256
    → b < 256
    → c < 256
    → d < 256
    → n ≤ 32
    → parse_network lib 6 (quad_text a b c d ++ (47 ∷ octet_text n)) data_id
      ≡ some (record {
        bits = replicate 12 0 ++ (a ∷ b ∷ c ∷ d ∷ []);
        prefix_len = n + 96;
        data_id = data_id;
      })
unfolding parse_network parse_address ipv4_entry or_default
parse_network-quad_text lib a b c d n data_id ha hb hc hd hn =
    rw
      (
        split_at-append 47 (quad_text a b c d) (octet_text n) (quad_text-Lacks a b c d ha hb hc hd),
        parse_prefix-octet_text n (omega arith),
        parse_ipv4-quad_text a b c d ha hb hc hd,
        le→ltb 32 n hn,
        parse_network,
        parse_address,
      )
      refl
