-- ===== src/Syncx/Tests.antt =====
-- syncx/resourcemanager.go: a manager with one resource.
use g_micor.Base.{ℕ, ◌≡◌, refl, none, some, [], lookup, insert}
use g_micor.Syncx.ResourceManager.{ResourceManager, get_resource, inject}

abbrev manager : ResourceManager ℕ
manager = record { resources = [] }

injected : (get_resource "db" none (inject "db" 5 manager)).0 ≡ some 5
unfolding get_resource inject lookup insert
injected = refl
