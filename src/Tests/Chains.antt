-- ===== src/Tests/Chains.antt =====
-- Runs of src/bitcoin_core_rpc/chains.py.
use bitcoin_core_rpc.Chains.{
  chain_from_network, datadir_subdir_from_chain, from_table, magic_from_chain, network_from_chain,
  rpc_port_from_chain,
}
use bitcoin_core_rpc.Chains.Cookie.{
  CookieFile, cookie_auth, cookie_line, is_space, keep, lstrip, read_cookie, rstrip, strip,
}
use bitcoin_core_rpc.Chains.Cookie.Line.{IsCookie, cookie_line-ok_iff}
use bitcoin_core_rpc.Chains.Cookie.Outcome.{
  CookieOutcome, RaisesOsErrors, cookie_auth-CookieOutcome,
}
use bitcoin_core_rpc.Chains.Datadir.{
  Platform, cookie_path_from_chain, datadir_base, datadir_row, default_datadir, joinpath,
}
use bitcoin_core_rpc.Chains.Datadir.Absolute.{KeepsAbsolute, cookie_path_from_chain-absolute}
use bitcoin_core_rpc.Chains.Lookup.{
  chain_from_network-network_from_chain, chains_apart, chains_known_alike, exception_of,
}
use bitcoin_core_rpc.Chains.Signet.{compact_size}
use bitcoin_core_rpc.Chains.Signet.RoundTrip.{read_compact_size, read_compact_size-compact_size}
use bitcoin_core_rpc.Errors.{ok}
use bitcoin_core_rpc.Prelude.{
  Bytes, Text, [], arith, codes, false, inl, lookup, none, refl, some, take, text_eq, true, ◌++◌,
  ◌==◌, ◌↔◌, ◌∷◌, ◌≡◌,
}
use bitcoin_core_rpc.Value.{str}

abbrev cookie_octets : Bytes
cookie_octets = codes " __cookie__:1f2e\n"

abbrev pub cookie_file : CookieFile
cookie_file = record {
  encodable = true;
  opened = ok tt;
  regular = ok true;
  read = λ n. ok (take n cookie_octets);
}

pub cookie_file-RaisesOsErrors : RaisesOsErrors cookie_file
cookie_file-RaisesOsErrors = record {
  by_open = λ e h. absurd (ground arith);
  by_status = λ e h. absurd (ground arith);
  by_read = λ n e h. absurd (ground arith);
}

cookie_auth-CookieOutcome_example :
    ((cookie_auth cookie_file).1 ≡ 0) × CookieOutcome cookie_file (cookie_auth cookie_file).0
cookie_auth-CookieOutcome_example = cookie_auth-CookieOutcome cookie_file cookie_file-RaisesOsErrors

cookie_run : cookie_auth cookie_file ≡ (ok (codes "__cookie__:1f2e"), 0)
unfolding cookie_auth read_cookie cookie_line strip lstrip rstrip keep is_space
cookie_run = refl

cookie_line-ok_iff_example :
    (cookie_line cookie_octets ≡ ok (codes "__cookie__:1f2e"))
    ↔ IsCookie cookie_octets (codes "__cookie__:1f2e")
cookie_line-ok_iff_example = cookie_line-ok_iff cookie_octets (codes "__cookie__:1f2e")

chains_known_alike_example :
    (exception_of (rpc_port_from_chain (str (codes "mainnet")))
      ≡ exception_of (datadir_subdir_from_chain (str (codes "mainnet"))))
    × (exception_of (rpc_port_from_chain (str (codes "mainnet")))
        ≡ exception_of (network_from_chain (str (codes "mainnet"))))
    × (exception_of (rpc_port_from_chain (str (codes "mainnet")))
        ≡ exception_of (magic_from_chain (str (codes "mainnet"))))
chains_known_alike_example = chains_known_alike (str (codes "mainnet"))

chain_from_network-network_from_chain_example :
    (chain_from_network (str (codes "mainnet")) ≡ ok (codes "main"))
    ↔ (network_from_chain (str (codes "main")) ≡ ok (codes "mainnet"))
chain_from_network-network_from_chain_example =
    chain_from_network-network_from_chain (codes "mainnet") (codes "main")

regtest_port : rpc_port_from_chain (str (codes "regtest")) ≡ ok 18443
unfolding rpc_port_from_chain from_table lookup text_eq
regtest_port = refl

chains_apart_example : str (codes "regtest") ≡ str (codes "regtest")
chains_apart_example =
    chains_apart (str (codes "regtest")) (str (codes "regtest"))
      (inl (18443, regtest_port, regtest_port))

read_compact_size-compact_size_example :
    read_compact_size (compact_size 300 ++ codes "script") ≡ some (300, codes "script")
read_compact_size-compact_size_example =
    read_compact_size-compact_size 300 (codes "script") (omega arith)

-- a platform whose paths are texts
abbrev linux : Platform Text
linux = record {
  name = codes "linux";
  home = some (codes "/root");
  environ = λ var. none;
  path = λ t. t;
  is_absolute = λ t. elim t [ [] ↦ false | c ∷ cs ↦ c == b'/' ];
  joined = λ base part. base ++ b'/' ∷ part;
}

linux-KeepsAbsolute : KeepsAbsolute linux
linux-KeepsAbsolute (c ∷ cs) part p h = h
linux-KeepsAbsolute [] part p h = absurd (ground arith)

derived_run :
    cookie_path_from_chain linux (str (codes "regtest")) none
    ≡ ok (codes "/root/.bitcoin/regtest/.cookie")
unfolding cookie_path_from_chain default_datadir datadir_row datadir_base joinpath lookup
    datadir_subdir_from_chain from_table text_eq
derived_run = refl

cookie_path_from_chain-absolute_example :
    linux.is_absolute (codes "/root/.bitcoin/regtest/.cookie") ≡ true
cookie_path_from_chain-absolute_example =
    cookie_path_from_chain-absolute linux (str (codes "regtest"))
      (codes "/root/.bitcoin/regtest/.cookie") linux-KeepsAbsolute derived_run
