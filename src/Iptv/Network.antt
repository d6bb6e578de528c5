-- ===== src/Iptv/Network.antt =====
-- internal/iptv/network.go: which addresses of a host may be connected to. A host is what
-- `parsed.Hostname()` gives. `netip.Addr` is a number of 32 or of 128 bits with its zone; the parsing
-- of literals, the resolver and the dialer are parameters.
pub mod Public
pub mod Safety
use hummtube.Base.{
  ℕ, ◌+◌, ◌*◌, ◌^◌, ◌%◌, Bool, true, false, not, ◌&&◌, ◌||◌, code, ltb, leb, ◌==◌, String, List, [],
  ◌∷◌, ◌++◌, Option, none, some, ◌⊎◌, inl, inr, any, str_eq, is_empty, if◌then◌else◌, stable_sort,
}
use Prim.Native.Nat.{◌/◌}
use Prim.Native.String.{compare as compare_texts}
use Prim.Native.Nat.{Ordering}
use hummtube.Domain.Vocabulary.{CaseTable, to_lower}

pub data Addr : Type 0 where
  invalid : Addr
  v4 : ℕ → Addr
  v6 : ℕ → String → Addr

-- `Unmap`: an IPv4 address inside an IPv6 address
unfoldable pub unmap : Addr → Addr
unmap invalid = invalid
unmap (v4 n) = v4 n
unmap (v6 n zone) = if n / 2 ^ 32 == 0xffff then v4 (n % 2 ^ 32) else v6 n zone

-- The number lies in the block of addresses that begins at `first` with a power of two of them.
abbrev pub in_block : ℕ → ℕ → ℕ → Bool
in_block first bits n = n / 2 ^ bits == first

unfoldable pub is_unspecified : Addr → Bool
is_unspecified invalid = false
is_unspecified (v4 n) = n == 0
is_unspecified (v6 n zone) = n == 0 && is_empty zone

unfoldable pub is_loopback : Addr → Bool
is_loopback invalid = false
is_loopback (v4 n) = in_block 127 24 n
is_loopback (v6 n zone) = n == 1

unfoldable pub is_multicast : Addr → Bool
is_multicast invalid = false
is_multicast (v4 n) = in_block 0xe 28 n
is_multicast (v6 n zone) = in_block 0xff 120 n

unfoldable pub is_link_local_unicast : Addr → Bool
is_link_local_unicast invalid = false
is_link_local_unicast (v4 n) = in_block 0xa9fe 16 n
is_link_local_unicast (v6 n zone) = in_block 0x3fa 118 n

unfoldable pub is_link_local_multicast : Addr → Bool
is_link_local_multicast invalid = false
is_link_local_multicast (v4 n) = in_block 0xe00000 8 n
is_link_local_multicast (v6 n zone) = in_block 0xff 120 n && n / 2 ^ 112 % 16 == 2

unfoldable pub is_private : Addr → Bool
is_private invalid = false
is_private (v4 n) = in_block 10 24 n || in_block 0xac1 20 n || in_block 0xc0a8 16 n
is_private (v6 n zone) = in_block 0x7e 121 n

unfoldable pub is_broadcast : Addr → Bool
is_broadcast (v4 n) = n == 0xffffffff
is_broadcast _ = false

unfoldable pub is_valid : Addr → Bool
is_valid invalid = false
is_valid _ = true

unfoldable pub is_global_unicast : Addr → Bool
unfolding is_valid is_unspecified is_broadcast is_loopback is_multicast is_link_local_unicast
is_global_unicast a =
    is_valid a
    && not (
        is_unspecified a
        || is_broadcast a
        || is_loopback a
        || is_multicast a
        || is_link_local_unicast a)

-- `forbiddenEndpointPrefixes`, each as the number of its block and the bits inside it
abbrev pub forbidden_blocks : List (ℕ × ℕ)
forbidden_blocks =
    (0, 24)
    ∷ (0x191, 22)
    ∷ (0xc00000, 8)
    ∷ (0xc00002, 8)
    ∷ (0x6309, 17)
    ∷ (0xc63364, 8)
    ∷ (0xcb0071, 8)
    ∷ (0xf, 28)
    ∷ []

-- A prefix contains no address with a zone.
unfoldable pub in_forbidden_prefix : Addr → Bool
in_forbidden_prefix invalid = false
in_forbidden_prefix (v4 n) = any (λ block. in_block block.0 block.1 n) forbidden_blocks
in_forbidden_prefix (v6 n zone) = in_block 0x20010db8 96 n && is_empty zone

-- `isForbiddenEndpointAddress`
unfoldable pub is_forbidden_endpoint_address : Addr → Bool
unfolding is_valid is_global_unicast is_private is_loopback is_link_local_unicast
    is_link_local_multicast is_multicast is_unspecified in_forbidden_prefix
is_forbidden_endpoint_address a =
    if not (is_valid a)
      || not (is_global_unicast a)
      || is_private a
      || is_loopback a
      || is_link_local_unicast a
      || is_link_local_multicast a
      || is_multicast a
      || is_unspecified a
    then true
    else in_forbidden_prefix a

abbrev pub addr_eq : Addr → Addr → Bool
addr_eq invalid invalid = true
addr_eq (v4 n) (v4 m) = n == m
addr_eq (v6 n z) (v6 m w) = n == m && str_eq z w
addr_eq _ _ = false

abbrev text_before : String → String → Bool
text_before s t = elim (compare_texts s t) [ Ordering.lt ↦ true | _ ↦ false ]

-- `a.Compare(b) < 0`: by length, by number, by zone
abbrev pub addr_before : Addr → Addr → Bool
addr_before invalid invalid = false
addr_before invalid _ = true
addr_before (v4 n) (v4 m) = ltb n m
addr_before (v4 n) (v6 m w) = true
addr_before (v4 n) invalid = false
addr_before (v6 n z) (v6 m w) = ltb n m || (n == m && text_before z w)
addr_before (v6 n z) _ = false

pub data EndpointError : Type 0 where
  invalid_endpoint : EndpointError
  endpoint_dns : EndpointError
  unsafe_endpoint : EndpointError
  endpoint_unreachable : EndpointError

abbrev pub put_first : Addr → EndpointError ⊎ List Addr → EndpointError ⊎ List Addr
put_first a (inl e) = inl e
put_first a (inr rest) = inr (a ∷ rest)

-- The loop over the addresses; `unique` holds those that were met.
unfoldable pub public_addresses : List Addr → List Addr → EndpointError ⊎ List Addr
unfolding is_forbidden_endpoint_address unmap
public_addresses unique [] = inr []
public_addresses unique (raw ∷ addresses) =
    let address = unmap raw in
    let known = public_addresses unique addresses in
    let added = public_addresses (address ∷ unique) addresses in
    if is_forbidden_endpoint_address address
    then inl unsafe_endpoint
    else if any (addr_eq address) unique
    then known
    else put_first address added

-- The network: `netip.ParseAddr`, the answers of the resolver (`none` is an error), and whether a
-- dial to an address and a port succeeds.
pub record Net : Type 0 where
  pub table : CaseTable
  pub parse_addr : String → Option Addr
  pub lookup : String → Option (List Addr)
  pub dial : Addr → String → Bool

-- `strings.TrimSuffix(s, ".")`
unfoldable pub trim_dot : String → String
trim_dot String.[] = String.[]
trim_dot (String.◌∷◌ c String.[]) = if code c == 0x2e then String.[] else String.◌∷◌ c String.[]
trim_dot (String.◌∷◌ c (String.◌∷◌ d s)) = String.◌∷◌ c (trim_dot (String.◌∷◌ d s))

-- `strings.HasSuffix`
unfoldable pub has_suffix : String → String → Bool
has_suffix String.[] t = is_empty t
has_suffix (String.◌∷◌ c s) t = str_eq (String.◌∷◌ c s) t || has_suffix s t

unfoldable pub is_local_host : String → Bool
unfolding has_suffix
is_local_host host =
    str_eq host "localhost" || has_suffix host ".localhost" || has_suffix host ".local"

unfoldable pub addresses_of : Net → String → Option (List Addr)
unfolding unmap
addresses_of net host = elim (net.parse_addr host) [
  | some literal ↦ some (unmap literal ∷ [])
  | none ↦ elim (net.lookup host) [ none ↦ none | some [] ↦ none | some (a ∷ l) ↦ some (a ∷ l) ]
]

unfoldable pub sorted_endpoint : EndpointError ⊎ List Addr → EndpointError ⊎ List Addr
unfolding stable_sort
sorted_endpoint (inl e) = inl e
sorted_endpoint (inr []) = inl endpoint_dns
sorted_endpoint (inr (a ∷ l)) = inr (stable_sort addr_before (a ∷ l))

unfoldable pub checked_endpoint : Option (List Addr) → EndpointError ⊎ List Addr
unfolding public_addresses sorted_endpoint
checked_endpoint none = inl endpoint_dns
checked_endpoint (some addresses) = sorted_endpoint (public_addresses [] addresses)

-- `resolvePublicEndpoint` for a host; the context is not nil.
unfoldable pub resolve_public_endpoint : Net → String → EndpointError ⊎ List Addr
unfolding trim_dot is_local_host addresses_of checked_endpoint
resolve_public_endpoint net hostname =
    let host = trim_dot (to_lower net.table hostname) in
    if is_local_host host then inl unsafe_endpoint else checked_endpoint (addresses_of net host)

-- The loop of `DialContext`: the addresses that were dialed in their order, and the connection.
unfoldable pub dial_first : Net → String → List Addr → List Addr × Option Addr
dial_first net port [] = ([], none)
dial_first net port (a ∷ addresses) =
    let rest = dial_first net port addresses in
    if net.dial a port then (a ∷ [], some a) else (a ∷ rest.0, rest.1)

abbrev pub connected : Option Addr → EndpointError ⊎ Addr
connected none = inl endpoint_unreachable
connected (some a) = inr a

unfoldable pub dialed :
    Net → String → EndpointError ⊎ List Addr → List Addr × (EndpointError ⊎ Addr)
unfolding dial_first
dialed net port (inl e) = ([], inl e)
dialed net port (inr []) = ([], inl endpoint_dns)
dialed net port (inr (a ∷ addresses)) =
    let attempts = dial_first net port (a ∷ addresses) in (attempts.0, connected attempts.1)

-- `publicNetworkDialer.DialContext` on a host and a port
unfoldable pub dial_context : Net → String → String → List Addr × (EndpointError ⊎ Addr)
unfolding resolve_public_endpoint dialed
dial_context net hostname port = dialed net port (resolve_public_endpoint net hostname)
