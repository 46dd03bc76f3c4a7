-- ===== src/App/Tests/Whole.antt =====
-- A transaction from its first chunk to the signature that is fetched, on a device that has signed
-- before.
use ledger_arweave.Base.{◌++◌, Bytes, replicate}
use ledger_arweave.Store.{in_use}
use ledger_arweave.Parser
use ledger_arweave.Base64
use ledger_arweave.Status
use ledger_arweave.App.Tests.{signed}

abbrev new_sig : Bytes
new_sig = replicate 32 6 ++ (in_use signed.store).rsa_priv
