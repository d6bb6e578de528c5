-- ===== src/Iptv/Network/Safety.antt =====
-- The client for public endpoints and the addresses that it connects to.
use hummtube.Base.{
  ◌≡◌, refl, Bool, true, String, List, [], ◌∷◌, Option, none, some, ◌⊎◌, inl, inr, All, any,
  Bool-cases, stable_sort-All,
}
use hummtube.Domain.Vocabulary.{to_lower}
use hummtube.Iptv.Network.Public.{IsPublic, permitted-IsPublic}
use hummtube.Iptv.Network.{
  Addr, EndpointError, Net, unmap, is_forbidden_endpoint_address, addr_before, addr_eq, put_first,
  connected, unsafe_endpoint, public_addresses, sorted_endpoint, checked_endpoint, addresses_of,
  is_local_host, trim_dot, resolve_public_endpoint, dial_first, dialed, dial_context,
}

-- An error, or only public addresses.
abbrev AllPublic : EndpointError ⊎ List Addr → Type 0
AllPublic (inl e) = Unit
AllPublic (inr addresses) = All IsPublic addresses

put_first-AllPublic :
    (a : Addr) (x : EndpointError ⊎ List Addr)
    → IsPublic a
    → AllPublic x
    → AllPublic (put_first a x)
put_first-AllPublic a (inl e) p h = tt
put_first-AllPublic a (inr rest) p h = (p, h)

public_addresses-AllPublic :
    (unique addresses : List Addr) → AllPublic (public_addresses unique addresses)
unfolding public_addresses
public_addresses-AllPublic unique [] = tt
public_addresses-AllPublic unique (raw ∷ addresses) =
    let address = unmap raw in
    elim (Bool-cases (is_forbidden_endpoint_address address)) [
      | inl f ↦ rw f tt
      | inr ok ↦ rw ok (elim (Bool-cases (any (addr_eq address) unique)) [
        | inl known ↦ rw known (public_addresses-AllPublic unique addresses)
        | inr added ↦ rw added (
            put_first-AllPublic address (public_addresses (address ∷ unique) addresses)
              (permitted-IsPublic address ok)
              (public_addresses-AllPublic (address ∷ unique) addresses))
      ])
    ]

sorted_endpoint-AllPublic :
    (x : EndpointError ⊎ List Addr) → AllPublic x → AllPublic (sorted_endpoint x)
unfolding sorted_endpoint
sorted_endpoint-AllPublic (inl e) h = tt
sorted_endpoint-AllPublic (inr []) h = tt
sorted_endpoint-AllPublic (inr (a ∷ l)) h = stable_sort-All addr_before IsPublic (a ∷ l) h

checked_endpoint-AllPublic : (found : Option (List Addr)) → AllPublic (checked_endpoint found)
unfolding checked_endpoint
checked_endpoint-AllPublic none = tt
checked_endpoint-AllPublic (some addresses) =
    sorted_endpoint-AllPublic _ (public_addresses-AllPublic [] addresses)

resolve_public_endpoint-AllPublic :
    (net : Net) (hostname : String) → AllPublic (resolve_public_endpoint net hostname)
unfolding resolve_public_endpoint
resolve_public_endpoint-AllPublic net hostname =
    let host = trim_dot (to_lower net.table hostname) in
    elim (Bool-cases (is_local_host host)) [
      | inl y ↦ rw y tt
      | inr n ↦ rw n (checked_endpoint-AllPublic (addresses_of net host))
    ]

-- The end of a dial: an error, or a connection to a public address.
abbrev pub EndsPublic : EndpointError ⊎ Addr → Type 0
EndsPublic (inl e) = Unit
EndsPublic (inr a) = IsPublic a

dial_first-IsPublic :
    (net : Net) (port : String) (addresses : List Addr)
    → All IsPublic addresses
    → All IsPublic (dial_first net port addresses).0
      × EndsPublic (connected (dial_first net port addresses).1)
unfolding dial_first
dial_first-IsPublic net port [] h = (tt, tt)
dial_first-IsPublic net port (a ∷ addresses) (p, h) = elim (Bool-cases (net.dial a port)) [
  | inl y ↦ rw y ((p, tt), p)
  | inr n ↦ let rest = dial_first-IsPublic net port addresses h in rw n ((p, rest.0), rest.1)
]

dialed-IsPublic :
    (net : Net) (port : String) (x : EndpointError ⊎ List Addr)
    → AllPublic x
    → All IsPublic (dialed net port x).0 × EndsPublic (dialed net port x).1
unfolding dialed
dialed-IsPublic net port (inl e) h = (tt, tt)
dialed-IsPublic net port (inr []) h = (tt, tt)
dialed-IsPublic net port (inr (a ∷ addresses)) h = dial_first-IsPublic net port (a ∷ addresses) h

-- Whatever the host, the answers of the resolver and the dials, every address that is dialed, and
-- the one that a connection is to, is valid and lies outside of the ranges of IPv4 and IPv6 that are
-- listed as not public: the own network, private, shared, loopback, link-local, multicast,
-- reserved, for benchmarks and for documentation. Two of them hold only for addresses without a
-- zone: the unspecified address of IPv6 and its range for documentation.
pub dial_context-IsPublic :
    (net : Net) (hostname port : String)
    → All IsPublic (dial_context net hostname port).0
      × EndsPublic (dial_context net hostname port).1
unfolding dial_context
dial_context-IsPublic net hostname port =
    dialed-IsPublic net port _ (resolve_public_endpoint-AllPublic net hostname)

abbrev pub is_forbidden_answer : Addr → Bool
is_forbidden_answer raw = is_forbidden_endpoint_address (unmap raw)

put_first-unsafe :
    (a : Addr) (x : EndpointError ⊎ List Addr)
    → x ≡ inl unsafe_endpoint
    → put_first a x ≡ inl unsafe_endpoint
put_first-unsafe a x h = rw h refl

public_addresses-unsafe :
    (unique addresses : List Addr)
    → any is_forbidden_answer addresses ≡ true
    → public_addresses unique addresses ≡ inl unsafe_endpoint
unfolding public_addresses
public_addresses-unsafe unique [] h = cc
public_addresses-unsafe unique (raw ∷ addresses) h =
    let address = unmap raw in
    elim (Bool-cases (is_forbidden_endpoint_address address)) [
      | inl f ↦ rw f refl
      | inr ok ↦ rw ok (elim (Bool-cases (any (addr_eq address) unique)) [
        | inl known ↦ rw known (public_addresses-unsafe unique addresses (rw ok at h))
        | inr added ↦ rw added (
            put_first-unsafe address _
              (public_addresses-unsafe (address ∷ unique) addresses (rw ok at h)))
      ])
    ]

-- One forbidden address among the answers for a host is enough: nothing is dialed, and the error
-- says that the endpoint is unsafe, whatever public addresses the resolver answered beside it.
pub dial_context-unsafe :
    (net : Net) (hostname port : String) (answers : List Addr)
    → addresses_of net (trim_dot (to_lower net.table hostname)) ≡ some answers
    → any is_forbidden_answer answers ≡ true
    → dial_context net hostname port ≡ ([], inl unsafe_endpoint)
unfolding dial_context resolve_public_endpoint checked_endpoint dialed sorted_endpoint
dial_context-unsafe net hostname port answers e h =
    elim (Bool-cases (is_local_host (trim_dot (to_lower net.table hostname)))) [
      | inl y ↦ rw y refl
      | inr n ↦ rw (n, e, public_addresses-unsafe [] answers h) refl
    ]
