-- ===== src/OptimisticVault/Tests.antt =====
-- A rename that is taken back, and the instance of the theorem.
use vault_drive.Base.{[], ◌∷◌, ◌≡◌, refl, arith, text_eq}
use vault_drive.OptimisticVault.{
  OptimisticFile, OptimisticVault, OnlyOne, optimistic_rename, optimistic_delete, rollback,
  rollback-optimistic_rename,
}

abbrev report : OptimisticFile
report = record { id = "f1"; filename = "report.pdf"; other_fields = "" }

abbrev photo : OptimisticFile
photo = record { id = "f2"; filename = "photo.png"; other_fields = "" }

abbrev vault : OptimisticVault
vault = record { files = report ∷ photo ∷ []; rollback_ledger = [] }

-- A removed file comes back at the end.
deleted_and_back : (rollback "f1" (optimistic_delete "f1" vault)).files ≡ photo ∷ report ∷ []
unfolding rollback optimistic_delete
deleted_and_back = refl

only_report : OnlyOne "f1" report vault.files
only_report = (λ e. refl, (λ e. absurd (ground (arith, e)), tt))

rollback-optimistic_rename_example :
    rollback "f1" (optimistic_rename "f1" "final.pdf" vault) ≡ vault
rollback-optimistic_rename_example =
    rollback-optimistic_rename "f1" "final.pdf" report vault refl only_report refl
