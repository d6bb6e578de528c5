-- ===== src/Playback/Proxy/Target.antt =====
-- internal/playback/media_proxy.go: which URLs and which addresses the proxy goes to. `net/url`,
-- `netip.ParseAddr`, the resolver and the dials are parameters.
pub mod Safety
use hummtube.Base.{
  Bool, true, false, not, ◌&&◌, ◌||◌, String, List, [], ◌∷◌, Option, none, some, ◌⊎◌, inl, inr, any,
  is_empty, str_eq, trim_space, if◌then◌else◌,
}
use hummtube.Domain.Vocabulary.{CaseTable, to_lower}
use hummtube.Iptv.Network.{
  Addr, unmap, is_valid, is_global_unicast, is_private, is_loopback, is_link_local_unicast,
  is_link_local_multicast, is_multicast, is_unspecified, addr_eq, trim_dot, is_local_host, Net,
}

-- What `net/url` says of a URL; `rest` is what its text has after the scheme.
pub record MediaUrl : Type 0 where
  pub scheme : String
  pub hostname : String
  pub path : String
  pub fragment : String
  pub has_user : Bool
  pub rest : String

pub data TargetError : Type 0 where
  absent invalid_url not_http not_allowed not_public no_dns no_address unavailable : TargetError

-- `isForbiddenMediaAddress`
unfoldable pub is_forbidden_media_address : Addr → Bool
unfolding is_valid is_global_unicast is_private is_loopback is_link_local_unicast
    is_link_local_multicast is_multicast is_unspecified
is_forbidden_media_address a =
    not (is_valid a)
    || not (is_global_unicast a)
    || is_private a
    || is_loopback a
    || is_link_local_unicast a
    || is_link_local_multicast a
    || is_multicast a
    || is_unspecified a

abbrev pub is_http : String → Bool
is_http scheme = str_eq scheme "http" || str_eq scheme "https"

module _ (net : Net) where
  abbrev is_forbidden_literal : Option Addr → Bool
  is_forbidden_literal none = false
  is_forbidden_literal (some literal) = is_forbidden_media_address (unmap literal)

  -- The host names a machine of the local network, or is an address that is not public.
  unfoldable pub is_private_host : String → Bool
  unfolding is_forbidden_media_address unmap is_local_host trim_dot to_lower
  is_private_host hostname =
      let host = trim_dot (to_lower net.table hostname) in
      is_local_host host || is_forbidden_literal (net.parse_addr host)

module _ (net : Net) (parse : String → Option MediaUrl) where
  unfoldable pub checked_target : Bool → Option MediaUrl → TargetError ⊎ MediaUrl
  unfolding is_private_host to_lower
  checked_target allow none = inl invalid_url
  checked_target allow (some u) =
      let scheme = to_lower net.table u.scheme in
      if is_empty u.hostname
      then inl invalid_url
      else if not (is_http scheme)
      then inl not_http
      else if u.has_user || not (is_empty u.fragment)
      then inl not_allowed
      else if not allow && is_private_host net u.hostname
      then inl not_public
      else inr (record u { scheme = scheme })

  -- `validateMediaTarget`
  unfoldable pub validate_media_target : String → Bool → TargetError ⊎ MediaUrl
  unfolding checked_target
  validate_media_target raw allow =
      let value = trim_space raw in
      if is_empty value then inl absent else checked_target allow (parse value)

abbrev pub put_after : Addr → TargetError ⊎ List Addr → TargetError ⊎ List Addr
put_after a (inl e) = inl e
put_after a (inr rest) = inr (a ∷ rest)

-- The loop over the addresses that the resolver found; `seen` holds those that were met.
unfoldable pub distinct_addresses : List Addr → List Addr → TargetError ⊎ List Addr
unfolding is_forbidden_media_address unmap
distinct_addresses seen [] = inr []
distinct_addresses seen (raw ∷ addresses) =
    let address = unmap raw in
    let known = distinct_addresses seen addresses in
    let added = distinct_addresses (address ∷ seen) addresses in
    if is_forbidden_media_address address
    then inl not_public
    else if any (addr_eq address) seen
    then known
    else put_after address added

abbrev pub some_address : TargetError ⊎ List Addr → TargetError ⊎ List Addr
some_address (inl e) = inl e
some_address (inr []) = inl no_address
some_address (inr (a ∷ addresses)) = inr (a ∷ addresses)

unfoldable pub looked_up : Option (List Addr) → TargetError ⊎ List Addr
unfolding distinct_addresses
looked_up none = inl no_dns
looked_up (some []) = inl no_dns
looked_up (some (a ∷ addresses)) = some_address (distinct_addresses [] (a ∷ addresses))

-- The address that the host is, or those that it has
unfoldable pub media_addresses : Option Addr → Option (List Addr) → TargetError ⊎ List Addr
unfolding is_forbidden_media_address unmap looked_up
media_addresses none found = looked_up found
media_addresses (some literal) found =
    if is_forbidden_media_address (unmap literal) then inl not_public else inr (unmap literal ∷ [])

module _ (net : Net) where
  -- `resolvePublicMediaAddresses`
  unfoldable pub resolve_public_media_addresses : String → TargetError ⊎ List Addr
  unfolding media_addresses trim_dot to_lower
  resolve_public_media_addresses host =
      media_addresses (net.parse_addr host) (net.lookup (trim_dot (to_lower net.table host)))

  -- The dials, one address after another: those that were tried, and the one that answered.
  unfoldable pub dial_each : String → List Addr → List Addr × (TargetError ⊎ Addr)
  dial_each port [] = ([], inl unavailable)
  dial_each port (a ∷ addresses) =
      let (tried, result) = dial_each port addresses in
      if net.dial a port then (a ∷ [], inr a) else (a ∷ tried, result)

  abbrev pub dial_found : String → TargetError ⊎ List Addr → List Addr × (TargetError ⊎ Addr)
  dial_found port (inl e) = ([], inl e)
  dial_found port (inr addresses) = dial_each port addresses

  -- `mediaPublicDialer.DialContext`, on an address that has a host and a port
  unfoldable pub dial_media : String → String → List Addr × (TargetError ⊎ Addr)
  unfolding resolve_public_media_addresses dial_each
  dial_media host port = dial_found port (resolve_public_media_addresses host)
