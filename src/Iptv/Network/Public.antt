-- ===== src/Iptv/Network/Public.antt =====
-- internal/iptv/network.go: what public addresses are, as ranges of numbers, and what the code permits.
use hummtube.Base.{ℕ, ◌≡◌, true, false, ◌||◌, ltb, String, List, [], ◌∷◌, All, is_empty, arith}
use hummtube.Iptv.Network.{
  Addr, v4, v6, invalid, is_valid, is_unspecified, is_loopback, is_multicast, is_link_local_unicast,
  is_link_local_multicast, is_private, is_global_unicast, in_forbidden_prefix,
  is_forbidden_endpoint_address,
}

-- A number lies outside of a range, which has its ends.
abbrev pub IsOutside : ℕ → ℕ × ℕ → Type 0
IsOutside n (first, last) = (ltb n first || ltb last n) ≡ true

-- The ranges of IPv4 that are not public: the own network, private (10/8), shared (100.64/10),
-- loopback, link-local, private (172.16/12), of protocols, for documentation, private (192.168/16),
-- for benchmarks, twice for documentation, multicast, reserved
abbrev pub closed_v4 : List (ℕ × ℕ)
closed_v4 =
    (0x00000000, 0x00ffffff)
    ∷ (0x0a000000, 0x0affffff)
    ∷ (0x64400000, 0x647fffff)
    ∷ (0x7f000000, 0x7fffffff)
    ∷ (0xa9fe0000, 0xa9feffff)
    ∷ (0xac100000, 0xac1fffff)
    ∷ (0xc0000000, 0xc00000ff)
    ∷ (0xc0000200, 0xc00002ff)
    ∷ (0xc0a80000, 0xc0a8ffff)
    ∷ (0xc6120000, 0xc613ffff)
    ∷ (0xc6336400, 0xc63364ff)
    ∷ (0xcb007100, 0xcb0071ff)
    ∷ (0xe0000000, 0xefffffff)
    ∷ (0xf0000000, 0xffffffff)
    ∷ []

-- Those of IPv6 with and without a zone: loopback, unique local, link-local, multicast
abbrev pub closed_v6 : List (ℕ × ℕ)
closed_v6 =
    (1, 1)
    ∷ (0xfc000000000000000000000000000000, 0xfdffffffffffffffffffffffffffffff)
    ∷ (0xfe800000000000000000000000000000, 0xfebfffffffffffffffffffffffffffff)
    ∷ (0xff000000000000000000000000000000, 0xffffffffffffffffffffffffffffffff)
    ∷ []

-- Those without a zone: unspecified, for documentation
abbrev pub closed_without_zone : List (ℕ × ℕ)
closed_without_zone =
    (0, 0) ∷ (0x20010db8000000000000000000000000, 0x20010db8ffffffffffffffffffffffff) ∷ []

abbrev pub IsPublic : Addr → Type 0
IsPublic invalid = true ≡ false
IsPublic (v4 n) = All (IsOutside n) closed_v4
IsPublic (v6 n zone) =
    All (IsOutside n) closed_v6 × (is_empty zone ≡ true → All (IsOutside n) closed_without_zone)

v4-IsPublic : (n : ℕ) → is_forbidden_endpoint_address (v4 n) ≡ false → IsPublic (v4 n)
unfolding is_forbidden_endpoint_address in_forbidden_prefix is_valid is_global_unicast is_private
    is_loopback is_link_local_unicast is_link_local_multicast is_multicast is_unspecified
v4-IsPublic n h = (
  ground arith,
  (
    ground arith,
    (
      ground arith,
      (
        ground arith,
        (
          ground arith,
          (
            ground arith,
            (
              ground arith,
              (
                ground arith,
                (
                  ground arith,
                  (
                    ground arith,
                    (ground arith, (ground arith, (ground arith, (ground arith, tt)))),
                  ),
                ),
              ),
            ),
          ),
        ),
      ),
    ),
  ),
)

v6-IsPublic :
    (n : ℕ) (zone : String)
    → is_forbidden_endpoint_address (v6 n zone) ≡ false
    → IsPublic (v6 n zone)
unfolding is_forbidden_endpoint_address in_forbidden_prefix is_valid is_global_unicast is_private
    is_loopback is_link_local_unicast is_link_local_multicast is_multicast is_unspecified
v6-IsPublic n zone h = (
  (ground arith, (ground arith, (ground arith, (ground arith, tt)))),
  λ e. (ground arith, (ground arith, tt)),
)

-- An address that the code does not forbid is public.
pub permitted-IsPublic : (a : Addr) → is_forbidden_endpoint_address a ≡ false → IsPublic a
unfolding is_forbidden_endpoint_address is_valid
permitted-IsPublic invalid h = ground arith
permitted-IsPublic (v4 n) h = v4-IsPublic n h
permitted-IsPublic (v6 n zone) h = v6-IsPublic n zone h
