-- ===== src/Lib.antt =====
-- libklio stores time series of sensors. A program creates sensors, adds readings to a store and
-- reads them back; the store keeps sensors and pending readings in memory and writes them in bulks
-- to a database, which a derived class drives.
--
-- Parts and files. Paths are from the root of the repository.
--   Prelude, Exec, HashMap, OrdMap   Booleans, lists and integers over the native numbers; member
--                                    functions that may throw; `boost::unordered_map`, `std::map`
--   Time                             libklio/time.cpp, libklio/types.hpp
--   DeviceType, Sensor               libklio/device-type.cpp, libklio/sensor.cpp,
--                                    libklio/sensor-factory.cpp, a part of libklio/local-time.cpp
--   Store                            libklio/store.hpp: the members, and the functions of a derived
--                                    class as the records `Records` and `Backend`
--   Store/Buffers                    set_buffers, clear_buffers, get_buffered_readings, get_sensor
--   Store/Transactions, Store/Commit auto_start_transaction and its end, manual transactions
--   Store/Flush                      flush, auto_flush, prepare
--   Store/Sensors, Store/Steps       add_sensor, remove_sensor, update_sensor, the lookups
--   Store/Access                     add_reading, add_readings, update_readings, get_*_readings
--   Store/Sync                       sync, sync_readings, sync_sensors
--   Store/Reliable, Store/View       what a store relies on when it writes, and what a reader sees;
--                                    Rocks/Reliable fulfils this interface for the store of
--                                    RocksDB, as long as the writes to its databases succeed
--   Transaction                      libklio/sqlite3/sqlite3-transaction.cpp,
--                                    libklio/postgresql/postgresql-transaction.cpp,
--                                    libklio/redis/redis-transaction.cpp
--   Txt                              libklio/txt/txt-store.cpp, over a file system (Txt/Files)
--   Octave                           libklio/octave-exporter.cpp
--   Redis                            libklio/redis/redis-store.cpp, over a connection of redis3m
--   Csv                              libklio/csv-importer.cpp
--   Sqlite3                          libklio/sqlite3/sqlite3-store.cpp, over the C interface of SQLite
--   Rocks                            libklio/rocksdb/rocksdb-store.cpp, over RocksDB
--   Msg                              libklio/msg/msg-store.cpp, over the client of libmysmartgrid
--   StoreTool                        src/klio-store.cpp: the metrics of the action check
--   Collate                          libklio/algorithm/collate.cpp
--   Json                             libklio/json-exporter.cpp
--   Factory                          libklio/store-factory.cpp, with Factory/Servers
--   Postgres                         libklio/postgresql/postgresql-store.cpp, over libpq
--   Tests                            a database in memory and one of RocksDB, tests, and an
--                                    instance of each theorem
--
-- How to read the model. A member function is a function from the members to a result and the
-- members afterwards (`Exec`); a `throw` keeps what was written before it. An operation takes the
-- record of the functions of the derived class, so the calls between both are those of the code.
-- The clock is an argument `now`. A `Sensor::Ptr` is the sensor, or `none` for a null pointer.
--
-- Bounds. The bulks of a flush are counted as in the code, and cover all readings for every limit
-- above 0 (`IsReady` asks for it). Loops over a container run over a list, so no fuel is needed; loops
-- that ask a database for more, for the rows of a statement of SQLite or the results that wait on a
-- connection of PostgreSQL, take fuel, and any fuel above the number of those answers is enough.
-- Timestamps are integers without a bound, since overflow of a signed integer has no meaning in C++,
-- but where a store narrows them to 32 bits. A `double` is the pattern of its bits.
--
-- Not modelled: the texts of exceptions and of the log; the iteration order of an unordered map,
-- which no theorem fixes; changes of a sensor through its setters after it was handed to a store;
-- a `sync` of a store with itself; the rollback by which the destructor of a transaction handler ends
-- an operation that has thrown; the functions that only print. Databases, Boost and the file
-- system are parameters with what the code relies on as hypotheses. The other command line tools have
-- no model.
pub mod Prelude
pub mod Exec
pub mod HashMap
pub mod OrdMap
pub mod Time
pub mod DeviceType
pub mod Sensor
pub mod Store
pub mod Tests
pub mod Transaction
pub mod Txt
pub mod Octave
pub mod Redis
pub mod Csv
pub mod Json
pub mod Collate
pub mod Sqlite3
pub mod StoreTool
pub mod Rocks
pub mod Msg
pub mod Factory
pub mod Postgres
