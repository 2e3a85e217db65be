-- ===== src/Ui/Vault/Listed.antt =====
-- The callback of src/ui/bridge/vault.rs that lists the managed vaults, and the timer that clears the
-- message of a sync.
use passx.Base.{List, Option, Text, []}
use passx.Vault.Manager.Listing.{Paths, list_managed_vaults}

pub record Lists : Type 0 where
  pub managed_vaults : List Text
  pub io_status_message : Text

unfoldable pub on_refresh_managed_vaults : Paths → Option (List (Option Text)) → Lists → Lists
unfolding list_managed_vaults
on_refresh_managed_vaults ps entries w = record w {
  managed_vaults = list_managed_vaults ps entries;
}

-- It clears whatever message there is after five seconds, also a later one.
unfoldable pub clear_message : Lists → Lists
clear_message w = record w { io_status_message = [] }
