-- ===== src/Lib.antt =====
-- A model of the TypeScript of ClearGate (MACH402): a market where renters buy GPU time from nodes
-- by the second, paid in HBAR through x402 challenges.
--
-- The parts and how they meet. A node announces itself to the registry with heartbeats, which carry
-- its URL, its account and its terms. A renter's agent searches the registry, and with the tools of
-- the MCP server asks a node for a quote, pays, tops up and stops. The registry never sees a
-- payment; the limits on the agent's spending are all on the agent's side.
--
--   Base, Js    lists, integers and tests; strings as lists of UTF-16 code units, `BigInt(text)` and
--               its printing, ISO dates from milliseconds since 1970.
--   Types       packages/types/src: `NodeListing`, `LeaseOffer`, `SessionCreated`, `SessionState`
--               and the constants.
--   Registry    registry/src. Patterns and Validate: the heartbeat's schema (validate.ts). Store: the
--               table as a list of rows and each SQL statement as a function (store.ts, schema.ts),
--               with Store/Race for calls whose statements interleave. Providers: the agents' view
--               (providers.ts). Server: the routes (server.ts); `handle` answers one request and
--               `serve` a sequence of them.
--   Mcp         packages/mcp-server/src. World: what a tool reads and writes, as a state that is
--               passed on, and what it has from outside. Payer: the spending policy and the paid
--               fetch (vendor/payer.ts). Credentials: vendor/env.ts. Receipt: vendor/receipt.ts
--               and safety/audit.ts. Config: config.ts. Limits: safety/limits.ts. Client:
--               vendor/sessionClient.ts. Tools: the handlers under tools/. Payload: their answers,
--               with vendor/sshIdentity.ts. Search: searchComputeNodes.ts and registryClient.ts.
--   Contracts   contracts/contracts/SessionEscrow.sol: the deposits of sessions, their settlement and
--               the payouts that were refused.
--   Client      client/src. Payment: the policy and the reading of a paid response that the command
--               line and the website share (payment.ts). Escrow: the calls of the contract
--               (escrow.ts), with Escrow/Accepted for what the contract makes of them. Browser:
--               base64, the formats of keys and the payment that a wallet signs (browser/).
--   Hederakit   hederakit/src: the operator's key file (key.ts), the mirror node's accounts
--               (mirror.ts), what is submitted to Hedera (Ledger: client.ts, transfer.ts, hcs.ts,
--               contract.ts) and the commands of the sidecar (Commands: cli.ts).
--   Web         web/lib: the printing of amounts (Amounts) and the storage of a session in the browser
--               (Storage). web/components/rent: the terms of a purchase, the panel of a session, and
--               the page (Rent/Terms, Rent/Panel, Rent/Flow). `Flow.Events.run` takes the page
--               through clicks, answers and polls; an effect of React runs with the change that it
--               waits for. Rent/Form: whether time is for sale and the form of a purchase
--               (rent-flow.tsx, session-flow.tsx). Wallet: the connection to a wallet
--               (web/components/wallet, connect-wallet.tsx).
--
-- State and errors. The registry's state is its table; a handler returns its reply and the new
-- table. A tool is a function from a world to a result and a world, so that what it wrote before an
-- exception stays written. `World.paid` is a ghost: what has been signed with the account's key.
--
-- From outside, as parameters: fastify, zod's reading of a body, SHA-256 and the URL parser
-- (`Platform`); the nodes that answer, the paying fetch, the key generator, the disk and the UUIDs
-- (`Outside`), each answering its n-th call by n. Assumed where a theorem says so: digests are
-- ASCII, the x402 client signs only what the registered policy left, and nobody sends from the zero
-- address. The Hedera SDK, WebCrypto, the wallet and the reading of dates are parameters too. Every
-- statement is taken to succeed: a text with a NUL, which PostgreSQL refuses, does not come.
--
-- Bounds. A JSON number is an integer: the schema refuses fractions, and the code computes with
-- amounts as bigint, which has no bound. The printing of a number runs on fuel, one more than the
-- number, which is enough for its digits.
--
-- Not modelled: the agent in Go, the identity registry in Solidity and a payee of the escrow that
-- calls back, the wallets' own connectors, the other pages of the website, layout, start-up and
-- deployment, and the texts of error messages where the model's error tells the kind and the values.
pub mod Base
pub mod Client
pub mod Contracts
pub mod Hederakit
pub mod Js
pub mod Mcp
pub mod Registry
pub mod Types
pub mod Web
