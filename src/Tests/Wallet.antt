-- ===== src/Tests/Wallet.antt =====
-- Runs of `for_wallet` of src/bitcoin_core_rpc/client.py, with a `urlsplit` of one host.
use bitcoin_core_rpc.Client.Credentials.{RpcClient}
use bitcoin_core_rpc.Client.Credentials.Header.{IsText}
use bitcoin_core_rpc.Client.Slashes.{keep_slash, rstrip_slash}
use bitcoin_core_rpc.Client.Url.{checked_url}
use bitcoin_core_rpc.Client.Wallet.{for_wallet}
use bitcoin_core_rpc.Client.Wallet.Endpoint.{
  IsWalletOf, SplitsPath, for_wallet-IsWalletOf, for_wallet-wallet_of_wallet,
}
use bitcoin_core_rpc.Errors.{btc_value_error, ok, raise, wallet_of_wallet}
use bitcoin_core_rpc.Prelude.{
  Option, Text, [], ap, arith, codes, false, if◌then◌else◌, none, pos, refl, some, sym, text_eq, ℕ,
  ◌++◌, ◌==◌, ◌∙◌, ◌∷◌, ◌≡◌,
}
use bitcoin_core_rpc.Tests.Client.{alice}
use bitcoin_core_rpc.Tests.Transport.{ascii_unicode, node_parts, node_url}
use bitcoin_core_rpc.Transport.Checks.{Parts, assert_valid_timeout}
use bitcoin_core_rpc.Value.{int, str}

-- what stands behind a text
abbrev behind_prefix : Text → Text → Option Text
behind_prefix [] rest = some rest
behind_prefix (c ∷ cs) [] = none
behind_prefix (c ∷ cs) (d ∷ ds) = if c == d then behind_prefix cs ds else none

-- the parts of a url of the node, with its path
unfoldable with_path : Option Text → Option Parts
with_path none = none
with_path (some path) = some (record node_parts { path = path })

unfoldable split_host : Text → Option Parts
unfolding with_path
split_host url = with_path (behind_prefix node_url url)

behind_prefix-append : (p rest : Text) → behind_prefix p (p ++ rest) ≡ some rest
behind_prefix-append [] rest = refl
behind_prefix-append (c ∷ cs) rest = ground (arith, behind_prefix-append cs rest)

behind_prefix-some : (p url rest : Text) → behind_prefix p url ≡ some rest → url ≡ p ++ rest
behind_prefix-some [] url rest h = ground arith
behind_prefix-some (c ∷ cs) [] rest h = absurd (ground arith)
behind_prefix-some (c ∷ cs) (d ∷ ds) rest h = ground (arith, behind_prefix-some cs ds rest)

keep_plain : (c : ℕ) (text : Text) → (c == b'/') ≡ false → keep_slash c text ≡ c ∷ text
keep_plain c [] h = rw h refl
keep_plain c (d ∷ ds) h = refl

rstrip_slash-node : (rest : Text) → rstrip_slash (node_url ++ rest) ≡ node_url ++ rstrip_slash rest
unfolding rstrip_slash
rstrip_slash-node rest = rw (keep_plain b'2' (rstrip_slash rest) refl) refl

with_path-path :
    (o : Option Text) (parts : Parts)
    → with_path o ≡ some parts
    → (path : Text) × (o ≡ some path) × (parts.path ≡ path)
unfolding with_path
with_path-path none parts h = absurd (ground arith)
with_path-path (some path) parts h = (path, refl, ground arith)

-- in front of the suffix stand the host and what was there of a path
split_host-SplitsPath : SplitsPath split_host
unfolding split_host
split_host-SplitsPath url suffix parts longer h host starts chars k query fragment =
    let (path, p, q) = with_path-path (behind_prefix node_url url) parts h in
    let whole : rstrip_slash url ++ suffix ≡ node_url ++ (rstrip_slash path ++ suffix) =
      rw (behind_prefix-some node_url url path p, rstrip_slash-node path) refl in
    let (longer_path, r, s) =
      with_path-path (behind_prefix node_url (rstrip_slash url ++ suffix)) longer k in
    let same : some longer_path ≡ some (rstrip_slash path ++ suffix) =
      sym r
      ∙ (ap (behind_prefix node_url) whole
          ∙ behind_prefix-append node_url (rstrip_slash path ++ suffix)) in
    (rstrip_slash path, ground (arith, s, same))

abbrev hot_wallet : RpcClient ℕ
hot_wallet = record {
  url = codes "http://127.0.0.1:8332/wallet/a%2Fb";
  user = some (codes "alice");
  password = some (codes "s:t");
  cookie_path = none;
  timeout = int (pos 30);
}

-- a wallet with a slash in its name
wallet_run : for_wallet ascii_unicode split_host alice (str (codes "a/b")) ≡ ok hot_wallet
unfolding for_wallet split_host text_eq checked_url assert_valid_timeout
wallet_run = refl

a_b-IsText : IsText (codes "a/b")
a_b-IsText = (ground arith, (ground arith, (ground arith, tt)))

for_wallet-IsWalletOf_example : IsWalletOf alice (codes "a/b") hot_wallet
for_wallet-IsWalletOf_example =
    for_wallet-IsWalletOf ascii_unicode split_host alice hot_wallet (codes "a/b") a_b-IsText
      wallet_run

accepted_run : checked_url ascii_unicode split_host node_url ≡ ok node_url
unfolding checked_url split_host text_eq
accepted_run = refl

for_wallet-wallet_of_wallet_example :
    for_wallet ascii_unicode split_host hot_wallet (str (codes "cold"))
    ≡ raise (btc_value_error wallet_of_wallet)
for_wallet-wallet_of_wallet_example =
    for_wallet-wallet_of_wallet ascii_unicode split_host alice hot_wallet (codes "a/b")
      (codes "cold") split_host-SplitsPath accepted_run a_b-IsText wallet_run
