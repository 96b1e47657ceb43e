-- ===== src/Tests.antt =====
-- The theorems at concrete inputs, and runs of the functions of the model.
mod Data
mod DecoderBuffer
mod Stream
mod Parser
mod Configs
mod Bytes
mod HashParser
mod Parsers
mod Session
mod Sessions
mod Bitset
mod Suffix
mod SuffixParser
mod OptSuffixParser
