-- ===== src/Envelope/RoundTrip.antt =====
-- A path with one address is read back, and one that is not closed is not survived.
use smtp_nel_filter.Prelude.{
  ℕ, ◌+◌, ◌<◌, Bool, true, false, not, ◌||◌, ◌==◌, leb, if◌then◌else◌, Option, none, some, [], ◌∷◌,
  ◌++◌, Bytes, All, ◌≡◌, refl, arith, length,
}
use smtp_nel_filter.Outcome.{ok, fault}
use smtp_nel_filter.Mime.Chars.{is_wsp, is_atext}
use smtp_nel_filter.Mime.Space.Plain.{is_plain}
use smtp_nel_filter.Mime.Words.Phrases.{is_stop}
use smtp_nel_filter.Address.{Env, is_final}
use smtp_nel_filter.Address.Spec.{IsAddr}
use smtp_nel_filter.Address.Text.{IsEnv}
use smtp_nel_filter.Envelope.{
  wsp_greater_parse, wsp_at_sign_parse, behind_colon, source_route, AddrPool, mailbox_addr_dup,
  list_free, path_err, one_mailbox, path_close, adl_path_parse,
}
use smtp_nel_filter.Envelope.Mailboxes.{
  wsp_char-here, wsp_char-ne, Closes, Closes-no_wsp, addr-no_wsp, wsp_mailbox_list-print,
}

-- A source route: its bytes, without a colon and a NUL.
unfoldable pub is_route : ℕ → Bool
is_route c = not (c == b':' || c == 0)

-- The route, if there is one, and what follows it.
abbrev pub print_route : Option Bytes → Bytes → Bytes
print_route none rest = rest
print_route (some route) rest = b'@' ∷ (route ++ b':' ∷ rest)

-- Without a route, the address must not look like one.
abbrev pub IsRoute : Option Bytes → Bytes → Type 0
IsRoute none [] = Unit
IsRoute none (x ∷ xs) = (x == b'@') ≡ false
IsRoute (some route) addr = All is_route route

behind_colon-append :
    (route rest : Bytes) → All is_route route → behind_colon (route ++ b':' ∷ rest) ≡ ok tt rest
unfolding behind_colon is_route
behind_colon-append [] rest h = refl
behind_colon-append (x ∷ route) rest (hx, h) =
    let colon : (x == b':') ≡ false = ground arith in
    let nul : (x == 0) ≡ false = ground arith in rw (colon, nul) (behind_colon-append route rest h)

source_route-print :
    (route : Option Bytes) (addr rest : Bytes)
    → IsAddr addr
    → IsRoute route addr
    → source_route
        (print_route route (addr ++ rest))
        (wsp_at_sign_parse (print_route route (addr ++ rest)))
      ≡ ok tt (addr ++ rest)
unfolding source_route
source_route-print none [] rest h r = absurd h
source_route-print none (x ∷ xs) rest h r =
    rw (wsp_char-ne b'@' x (xs ++ rest) (addr-no_wsp x h.0) r) refl
source_route-print (some route) addr rest h r =
    rw (wsp_char-here b'@' (route ++ b':' ∷ (addr ++ rest)) (unfold is_wsp in refl))
      (behind_colon-append route (addr ++ rest) r)

module _ (env : Env) (law : IsEnv env) (pool : AddrPool) (route : Option Bytes) (addr : Bytes)
    (h : IsAddr addr) (r : IsRoute route addr) (size : 1 < env.fuel) where
  -- A path up to the end of its address.
  adl_path-closing :
      (c : ℕ) (s : Bytes)
      → Closes c
      → adl_path_parse env pool (b'<' ∷ print_route route (addr ++ c ∷ s))
        ≡ path_close pool
            (record { mb_display_name = none; mb_addr_spec = some addr } ∷ [])
            (wsp_greater_parse (c ∷ s))
  unfolding adl_path_parse
  adl_path-closing c s closes =
      rw
        (
          wsp_char-here b'<' (print_route route (addr ++ c ∷ s)) (unfold is_wsp in refl),
          source_route-print route addr (c ∷ s) h r,
          wsp_mailbox_list-print env law addr h c s closes size,
        )
        refl

  -- smtp_adl_path_parse reads the address of a path, with or without a source route, which it
  -- skips, if the address and its NUL fit into a block of the pool; a longer one is written behind
  -- the block. Memory and
  -- the pool last, and the fuel is above 1. The bytes of the address are those of is_addr, the route
  -- has no colon and no NUL, and an address without a route does not begin with an `@`.
  pub adl_path_parse-print :
      (s : Bytes)
      → pool.alloc_mem ≡ true
      → adl_path_parse env pool (b'<' ∷ print_route route (addr ++ b'>' ∷ s))
        ≡ (if leb (length addr + 1) pool.block_size then ok addr s else fault)
  unfolding path_close one_mailbox mailbox_addr_dup list_free
  adl_path_parse-print s memory =
      rw
        (
          adl_path-closing b'>' s (unfold is_stop is_plain is_atext is_final in (refl, refl, refl)),
          wsp_char-here b'>' s (unfold is_wsp in refl),
          memory,
        )
        refl

  -- Behind an address, with or without a source route, that a colon or a semicolon ends,
  -- smtp_adl_path_parse frees the list of mailboxes, goes to `err:` and frees it again. Memory lasts,
  -- the fuel is above 1, and the bytes of the address and of the route are as above.
  pub adl_path_parse-fault :
      (c : ℕ) (s : Bytes)
      → Closes c
      → (c == b'>') ≡ false
      → adl_path_parse env pool (b'<' ∷ print_route route (addr ++ c ∷ s)) ≡ fault
  unfolding path_close list_free path_err
  adl_path_parse-fault c s closes ne =
      rw (adl_path-closing c s closes, wsp_char-ne b'>' c s (Closes-no_wsp c closes) ne) refl
