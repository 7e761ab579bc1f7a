-- ===== src/Lib.antt =====
-- A model of bitcoin-core-rpc, a client of the JSON-RPC interface of Bitcoin Core, and what holds of
-- it.
--
-- The program. A caller builds a client for the url of a node, with a login or a cookie file. A call
-- checks its parameters and writes them as json, makes the Basic credential, and gives both to an
-- HTTP transport, which reads a bounded body under a deadline. The body is parsed, and a reply is a
-- result, the node's own error, or an exception that says which way the exchange failed. A batch
-- sends several requests in one exchange and puts its replies into the order of the requests. The
-- transport is the caller's choice: one connects for each exchange, and a session keeps a
-- connection for each node. A REST client fetches paths over the same transports.
--
-- The modules, and the files of the repository that they are about:
--   Prelude     numbers, lists and texts that the others share
--   Value       Python's values: scalars, and the trees that json.loads returns
--   Errors      src/bitcoin_core_rpc/errors.py; exceptions are values and code that raises returns
--               a Result; RPCErrorCode (Codes) and RpcError.__str__ (Shown)
--   Chains      src/bitcoin_core_rpc/chains.py: the tables (Chains), the magic of a signet (Signet),
--               the cookie file (Cookie), the data directory (Datadir)
--   Transport   src/bitcoin_core_rpc/transport.py: the checks of the arguments (Checks), the bounded
--               read (Read), http_request and urlopen_transport (Exchange), _connect and sendall
--               (Socket), the connections that a session keeps (Pool), SessionTransport (Session,
--               with __call__ and close in Session/Call)
--   Params      src/bitcoin_core_rpc/client.py, _params_member to _decimal_json: lists and dicts are
--               objects at addresses of a heap, since the walk asks for their identity
--   Reply       client.py, _rpc_error to _v2_result, and _result; the hooks of json.loads (Numbers)
--   Batch       client.py, _correlated_batch_replies, and call_batch from its answer on
--   Client      client.py: the url (Url), the constructor and auth_header (Credentials), UTF-8 and
--               base64 (Encoding), assert_chain (ChainCheck), _request and call (Call), call_raw
--               (CallRaw), call_batch (CallBatch), from_chain (FromChain), for_wallet (Wallet, with
--               urllib's quote in Quote and str.split in Slashes), BitcoinCoreRestClient (Rest),
--               RpcChannel (Channel)
--   Tests       runs of the model on concrete inputs
--
-- Correspondence. An operation has the name of the function without its underscore; a test that
-- raises is refuse, or an if whose branch is raise; statements in a row are a do block. A message
-- is one constructor of Reason. A finite float is a whole number of units of 2^-1074, and a time is
-- in that unit of a second. State that an operation changes is passed along: the connection in
-- read_bounded, the open descriptors in cookie_auth, the pool and the open connections in
-- session_call, the open sockets in connect. Connections and sockets are numbers, given out in the
-- order of their making, and a network or an operating system answers for them from its state.
--
-- Bounds. read_loop counts its turns, limit + 1 of them: a turn that goes on has read an octet, of
-- which no more are asked for. assert_json_params_at stops at depth 100, as the source does, and
-- request_json_at at the levels that the stack has room to write, where Python raises
-- RecursionError; how many frames json.dumps takes is in that number. walked asks the interpreter
-- whether its stack has room for the walk of _assert_json_params, 101 frames deep at most.
-- send_loop has a turn for each octet of its data, and each send takes at least one.
--
-- Parameters. What is not in the repository is an argument: json.loads with its hooks, urlsplit and
-- the character tables, sha256, pathlib, the operating system's files and sockets, the connection
-- and its clock, the connections that a session makes with the probe of a kept one, the opener of
-- urllib, and a caller's transport. A hypothesis about one of them is what its documentation says. The
-- close of a connection may raise, and so may a transport, whatever exception it likes.
--
-- Not modelled: name resolution with its thread, TLS, the classes that hand a deadline on to the
-- standard library, and JsonStream and the streamed results.
pub mod Prelude
pub mod Value
pub mod Errors
pub mod Reply
pub mod Params
pub mod Batch
pub mod Transport
pub mod Chains
pub mod Client
pub mod Tests
