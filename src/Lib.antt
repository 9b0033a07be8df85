-- ===== src/Lib.antt =====
-- OpenTTT: proofs of time, their transport in TLS-bound frames, and what a verifier accepts.
--
-- The SDK under src/ makes and checks proofs of time. `TimeSynthesis` asks several time sources,
-- combines their readings to a median and wraps it as a proof of time; `HttpOnlyClient` does the
-- same over HTTPS with an HMAC. Both keep the nonces they have seen in a bounded map. A Roughtime
-- source answers with a signed time whose validity is checked down to a Merkle root. A signed
-- record travels in a 175-byte frame that is bound to a TLS session, and `PotVerifier` decides
-- whether to accept a frame. `AdaptiveSwitch` chooses the mode of a builder by how well its last
-- blocks matched their records, and `PoolRegistry` keeps pools, token ids and amounts. Transactions
-- go out through `EVMConnector`, with a signer that `createSigner` makes.
--
-- The files, and the code that each is about:
--   PotFrame        src/pot_frame.ts: encodePotFrame, decodePotFrame, potRecordWithoutSig,
--                   validatePotFrameStructure. A thrown error is a value of a result type.
--   Verifier        src/pot_verifier.ts: PotVerifier.verify as one function for each of its steps,
--                   and MemoryNonceCache in Verifier/NonceCache; src/tls_binding.ts in
--                   Verifier/Binding. The nonce cache is an interface: `NonceOps` with the laws
--                   `IsRemembering`, which the in-memory cache fills.
--   AdaptiveSwitch  src/adaptive_switch.ts: the class with its state as a record. The two rates
--                   0.95 and 0.85 are compared as fractions of whole numbers.
--   ReplayCache     the bounded nonce map of verifyProofOfTime (src/time_synthesis.ts) and of
--                   verifyPoT (src/http_client.ts), which is the same code.
--   TimeSynthesis   src/time_synthesis.ts: synthesize, generateProofOfTime, verifyProofOfTime.
--                   Floating-point values are of an abstract type with the operations that the
--                   code applies to them. TimeSynthesis/Sources has the reply handlers of the
--                   NTP and HTTPS sources, TimeSynthesis/Choice which sources are asked,
--                   TimeSynthesis/Binary the binary form of a proof.
--   PoolRegistry    src/pool_registry.ts: every operation; ethers is a parameter.
--   Roughtime       src/roughtime_source.ts: the message format in Roughtime/Wire, the request, the
--                   Merkle walk and the validity check of a response; Roughtime/Exchange is
--                   sendAndReceive, with its socket and timer, under any sequence of events.
--   HttpClient      src/http_client.ts: generatePoT, verifyPoT, toProofOfTime.
--   V4Hook          src/v4_hook.ts: beforeSwap, afterSwap and the statistics.
--   TrustStore      src/trust_store.ts: the store of time sources.
--   PotSigner       src/pot_signer.ts: signPot and verifyPotSignature; Ed25519 and hex text are
--                   parameters with the laws `IsSound`.
--   Signer          src/signer.ts: the DER readers in Signer/Der, the signers on key services in
--                   Signer/Kms, createSigner in Signer/Factory. X.690 is written down in
--                   Signer/Der/Encode as what the readers are compared with.
--   EvmConnector    src/evm_connector.ts: the class with its state as a record. What comes of a URL
--                   that is dialled, and of each step of a contract call, is an argument;
--                   EvmConnector/Reach has the calls as steps of a relation.
--   Osnma           src/osnma_source.ts: the key check and the time source.
--   AgentTools      integrations/openai/ttt_function.ts and integrations/langchain/ttt_pot_tool.ts:
--                   the tools for language models, over TimeSynthesis.
--   PaymentFacilitator
--                   mcp/packages/x402-pot/src/index.ts: payments with a proof of time, over
--                   HttpClient.
--   McpServer       mcp/tools.ts, mcp/telemetry.ts and mcp/index.ts: the tools of the MCP server and
--                   the calls that it serves, over TimeSynthesis, AdaptiveSwitch and PotSigner. The
--                   integrity pipeline and what the subgraph answers are arguments.
--   AgentPlugin     plugins/elizaos-plugin-openttt/src: verified time (providers) and the cache of
--                   tokens; AgentPlugin/Generate makes a token and hands it to JSON.stringify as a
--                   JSON value, AgentPlugin/Verify finds, verifies and shows a token, and
--                   AgentPlugin/Actions has sequences of these actions.
--   Subgraph        subgraph/src/mapping.ts: the event handlers and the entities they store.
--   Errors          src/errors.ts: codes, classes and messages.
--
-- What the code takes from elsewhere is a parameter: TLS key export, Ed25519 and SHA-512, the HMAC,
-- hex and decimal text, ethers, clocks and random nonces. Each function gets the time that it reads
-- as an argument. A JavaScript Map is a list of entries in insertion order.
--
-- Bounds: loops run on lists or on the number of rounds that are left, but for the Merkle walk,
-- whose fuel is the length of the path; each round takes 32 bytes of it. Timestamps are natural
-- numbers; the checks of 32 and 64 bits are where the code has them. A four-byte length in DER is a
-- signed number of 32 bits, as in the code.
--
-- Not modelled: name lookup and HTTPS requests, logging, what wallets and contracts do, the user
-- interfaces, and the texts of error messages but for those of the connector.
mod Prelude
pub mod PotFrame
pub mod Verifier
pub mod AdaptiveSwitch
pub mod ReplayCache
pub mod TimeSynthesis
pub mod PoolRegistry
pub mod Roughtime
pub mod HttpClient
pub mod V4Hook
pub mod TrustStore
pub mod PotSigner
pub mod Signer
pub mod Errors
pub mod EvmConnector
pub mod Osnma
pub mod AgentTools
pub mod Subgraph
pub mod PaymentFacilitator
pub mod McpServer
pub mod AgentPlugin
