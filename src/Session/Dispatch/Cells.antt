-- ===== src/Session/Dispatch/Cells.antt =====
-- How often a cell is free, and how often it is linked into a chain.
use smtp_nel_filter.Prelude.{
  ℕ, zero, suc, ◌+◌, ◌≤◌, ◌<◌, ◌≡◌, refl, arith, some, List, [], ◌∷◌, ◌==◌, ltb, if◌then◌else◌,
  Bool-cases, inl, inr,
}
use smtp_nel_filter.Session.Table.{TcpStream, SmtpInfo, cells, search_chain, unlink}
use smtp_nel_filter.Session.Dispatch.{replace}

unfoldable pub free_times : ℕ → List ℕ → ℕ
free_times c [] = 0
free_times c (x ∷ xs) = let rest = free_times c xs in if x == c then suc rest else rest

unfoldable pub used_times : ℕ → List SmtpInfo → ℕ
used_times c [] = 0
used_times c (info ∷ chain) =
    let rest = used_times c chain in if info.cell == c then suc rest else rest

-- Every connection of a chain knows the number of its chain.
abbrev pub Placed : ℕ → List SmtpInfo → Type 0
Placed i [] = Unit
Placed i (info ∷ chain) = (info.hash_index ≡ i) × Placed i chain

pub free_times-cells_below : (c i n : ℕ) → c < i → free_times c (cells i n) ≡ 0
unfolding free_times cells
free_times-cells_below c i zero h = refl
free_times-cells_below c i (suc n) h =
    ground (arith, free_times-cells_below c (i + 1) n (omega arith))

pub free_times-cells : (c i n : ℕ) → free_times c (cells i n) ≤ 1
unfolding free_times cells
free_times-cells c i zero = omega arith
free_times-cells c i (suc n) =
    ground (arith, free_times-cells c (i + 1) n, free_times-cells_below c (i + 1) n)

-- A connection that is found is linked.
pub search_chain-used :
    (a : TcpStream) (chain : List SmtpInfo) {info : SmtpInfo}
    → search_chain a chain ≡ some info
    → 0 < used_times info.cell chain
unfolding search_chain used_times
search_chain-used a [] e = absurd (ground arith)
search_chain-used a (first ∷ chain) {info} e =
    let rest : search_chain a chain ≡ some info → 0 < used_times info.cell chain =
      λ f. search_chain-used a chain f in
    ground (arith, rest)

pub search_chain-Placed :
    (a : TcpStream) (i : ℕ) (chain : List SmtpInfo) {info : SmtpInfo}
    → Placed i chain
    → search_chain a chain ≡ some info
    → info.hash_index ≡ i
unfolding search_chain
search_chain-Placed a i [] p e = absurd (ground arith)
search_chain-Placed a i (first ∷ chain) {info} (here, p) e =
    let rest : search_chain a chain ≡ some info → info.hash_index ≡ i =
      λ f. search_chain-Placed a i chain p f in
    ground (arith, rest)

pub used_times-unlink :
    (c cell : ℕ) (chain : List SmtpInfo)
    → used_times c (unlink cell chain)
        + (if cell == c then (if ltb 0 (used_times cell chain) then 1 else 0) else 0)
      ≡ used_times c chain
unfolding used_times unlink
used_times-unlink c cell [] = ground arith
used_times-unlink c cell (info ∷ chain) = ground (arith, used_times-unlink c cell chain)

pub unlink-Placed :
    (i cell : ℕ) (chain : List SmtpInfo) → Placed i chain → Placed i (unlink cell chain)
unfolding unlink
unlink-Placed i cell [] p = tt
unlink-Placed i cell (info ∷ chain) (here, p) = elim (Bool-cases (info.cell == cell)) [
  | inl e ↦ rw e p
  | inr e ↦ rw e (here, unlink-Placed i cell chain p)
]

pub used_times-replace :
    (c : ℕ) (psmtp : SmtpInfo) (chain : List SmtpInfo)
    → used_times c (replace psmtp chain) ≡ used_times c chain
unfolding used_times replace
used_times-replace c psmtp [] = refl
used_times-replace c psmtp (info ∷ chain) = ground (arith, used_times-replace c psmtp chain)

pub replace-Placed :
    (i : ℕ) (psmtp : SmtpInfo) (chain : List SmtpInfo)
    → psmtp.hash_index ≡ i
    → Placed i chain
    → Placed i (replace psmtp chain)
unfolding replace
replace-Placed i psmtp [] h p = tt
replace-Placed i psmtp (info ∷ chain) h (here, p) = elim (Bool-cases (info.cell == psmtp.cell)) [
  | inl e ↦ rw e (h, p)
  | inr e ↦ rw e (here, replace-Placed i psmtp chain h p)
]
