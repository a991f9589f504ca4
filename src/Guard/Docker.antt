-- ===== src/Guard/Docker.antt =====
-- `build_docker_argv` of scripts/guard.py, and the reading of the documents of `docker inspect`.
use qwen38_flash_next_nvidia.Json.Loads.{Syntax}
use qwen38_flash_next_nvidia.Entrypoint.Prepared.{floats_finite}
use qwen38_flash_next_nvidia.Prelude.{◌>>=◌, String, List, [], ◌∷◌, ◌+ₛ◌, ok, err, Option}
use qwen38_flash_next_nvidia.Json.{Value, obj, arr, nil, cons, Fields}
use qwen38_flash_next_nvidia.Guard.{Owner, transport_error, Option}
use qwen38_flash_next_nvidia.Guard.Inventory.{Guarded, parse_json}

-- `build_docker_argv`
unfoldable pub build_docker_argv :
    String → String → String → String → String → String → Owner → List String
build_docker_argv image profile sources model cache state expect =
    "create"
    ∷ "--cidfile"
    ∷ (state +ₛ "/container.cid")
    ∷ "--name"
    ∷ ("qwen38fn-" +ₛ expect.nonce)
    ∷ "--label"
    ∷ ("io.r0b0tlab.qwen38fn.owner=" +ₛ expect.nonce)
    ∷ "--label"
    ∷ ("io.r0b0tlab.qwen38fn.profile-sha256=" +ₛ expect.profile_sha256)
    ∷ "--label"
    ∷ ("io.r0b0tlab.qwen38fn.image-id=" +ₛ image)
    ∷ "--gpus"
    ∷ "device=0"
    ∷ "--cpus"
    ∷ "14"
    ∷ "--memory"
    ∷ "112g"
    ∷ "--memory-swap"
    ∷ "112g"
    ∷ "--pids-limit"
    ∷ "2048"
    ∷ "--shm-size"
    ∷ "8g"
    ∷ "--cap-drop"
    ∷ "ALL"
    ∷ "--log-driver"
    ∷ "local"
    ∷ "--log-opt"
    ∷ "max-size=8m"
    ∷ "--log-opt"
    ∷ "max-file=3"
    ∷ "--security-opt"
    ∷ "no-new-privileges"
    ∷ "--read-only"
    ∷ "--publish"
    ∷ "127.0.0.1:30080:30000"
    ∷ "--mount"
    ∷ ("type=bind,src=" +ₛ profile +ₛ ",dst=/work/profile.json,readonly")
    ∷ "--mount"
    ∷ ("type=bind,src=" +ₛ sources +ₛ ",dst=/work/sources.json,readonly")
    ∷ "--mount"
    ∷ ("type=bind,src=" +ₛ model +ₛ ",dst=/model,readonly")
    ∷ "--mount"
    ∷ ("type=bind,src=" +ₛ cache +ₛ ",dst=/cache")
    ∷ "--tmpfs"
    ∷ "/tmp:rw,nosuid,nodev,size=4g,mode=1777"
    ∷ image
    ∷ "--profile"
    ∷ "/work/profile.json"
    ∷ "--sources"
    ∷ "/work/sources.json"
    ∷ []

abbrev one_object : Value → Guarded Fields
one_object (arr (cons (obj doc) nil)) = ok doc
one_object _ = err transport_error

-- `_one_document`, for the answer of the command; a ValueError becomes a TransportError.
abbrev parsed_document : Guarded Value → Guarded Fields
parsed_document (ok v) = one_object v
parsed_document (err e) = err transport_error

unfoldable pub one_document : Guarded (Option Syntax) → Guarded Fields
unfolding floats_finite
one_document answer = do text ← answer; parsed_document (parse_json text)
