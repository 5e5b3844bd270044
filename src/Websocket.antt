-- ===== src/Websocket.antt =====
-- addons/websocket/websocket.go. Parameter: ServeHTTP of golang.org/x/net/websocket with the handler of
-- the connection, which takes the connection over.
use amaro.Errors.{nil}
use amaro.Context.{Act, Handler, ◌>>◌, pure}

unfoldable pub new_websocket : {S : Type 0} → (serve : Act S (Unit {0})) → Handler S
new_websocket serve = do serve; pure nil
